-- ===== src/Session/Forward/Response.antt =====
-- A response that is laid out as the protocol says is passed on to its last packet and no further.

use transisi_db.Prelude.{
  ℕ, zero, suc, ◌+◌, ◌-◌, ◌*◌, ◌≤◌, ◌<◌, ◌≡◌, refl, sym, ap, ◌∙◌, Bool, true, false, ◌||◌, List, [],
  ◌∷◌, ◌++◌, length, arith, append_assoc, append-nil, All, length-append,
}
use transisi_db.Protocol.Packet.{max_payload}
use transisi_db.Protocol.Response.{is_ok_packet, is_err_packet, is_eof_packet}
use transisi_db.Protocol.Packet.RoundTrip.{
  encoding, packet, read_packet-encoding, write_packet_sends,
}
use transisi_db.Session.Io.{
  Session, Stage, ok, relay, backend_response, response_to_client, read_column, column_to_client,
  read_row, row_to_client,
}
use transisi_db.Session.Forward.{relay_until, result_set, read_response, ends_rows, rounds}

-- A packet that the server sends: its sequence number and its payload.
abbrev pub Sent : Type 0
Sent = ℕ × List ℕ

abbrev pub wire : List Sent → List ℕ
wire [] = []
wire ((seq, payload) ∷ ps) = encoding (packet seq payload) ++ wire ps

abbrev pub Fits : Sent → Type 0
Fits (seq, payload) = length payload ≤ max_payload

-- The session after the packets have passed and `rest` is unread.
abbrev pub after : List Sent → List ℕ → Session → Session
after ps rest s = record s {
  backend = record (s.backend) { incoming = rest };
  client = record (s.client) {
    sent = s.client.sent ++ wire ps;
    writes_left = s.client.writes_left - 2 * length ps;
  };
}

pub relay_exact :
    (r w : Stage) (seq : ℕ) (payload rest : List ℕ) (s : Session)
    → length payload ≤ max_payload
    → 2 ≤ s.client.writes_left
    → s.backend.incoming ≡ encoding (packet seq payload) ++ rest
    → relay r w s ≡ ok (packet seq payload) (after ((seq, payload) ∷ []) rest s)
unfolding relay
relay_exact r w seq payload rest s h k e = ground (
  arith,
  read_packet-encoding seq payload rest s.backend h e,
  write_packet_sends seq payload s.client h k,
  append-nil payload,
)

wire-append : (ps qs : List Sent) → wire (ps ++ qs) ≡ wire ps ++ wire qs
wire-append [] qs = refl
wire-append ((seq, payload) ∷ ps) qs =
    ap (λ bs. encoding (packet seq payload) ++ bs) (wire-append ps qs)
    ∙ sym (append_assoc (encoding (packet seq payload)) (wire ps) (wire qs))

length-le-wire : (ps : List Sent) → length ps ≤ length (wire ps)
length-le-wire [] = omega arith
length-le-wire ((seq, payload) ∷ ps) =
    omega (arith, length-le-wire ps, length-append (encoding (packet seq payload)) (wire ps))

after-after :
    (ps qs : List Sent) (mid rest : List ℕ) (s : Session)
    → after qs rest (after ps mid s) ≡ after (ps ++ qs) rest s
after-after ps qs mid rest s =
    ground (
      arith,
      wire-append ps qs,
      length-append ps qs,
      append_assoc s.client.sent (wire ps) (wire qs),
    )

-- The packets do not end the loop, and the one behind them does.
pub record Ends (stop : List ℕ → Bool) (ps : List Sent) (last : Sent) : Type 0 where
  pub go_on : All (λ (p : Sent). Fits p × (stop p.1 ≡ false)) ps
  pub last_fits : Fits last
  pub stops : stop last.1 ≡ true

relay_until_exact :
    (stop : List ℕ → Bool) (r w : Stage) (fuel : ℕ) (ps : List Sent) (last : Sent) (rest : List ℕ)
    (s : Session)
    → Ends stop ps last
    → length ps < fuel
    → 2 * (length ps + 1) ≤ s.client.writes_left
    → s.backend.incoming ≡ wire (ps ++ last ∷ []) ++ rest
    → relay_until stop r w fuel s ≡ ok tt (after (ps ++ last ∷ []) rest s)
unfolding relay_until
relay_until_exact stop r w zero ps last rest s d f k e = absurd (omega arith)
relay_until_exact stop r w (suc fuel) [] (seq, payload) rest s d f k e = ground (
  arith,
  append_assoc (encoding (packet seq payload)) [] rest,
  relay_exact r w seq payload rest s d.last_fits,
  d.stops,
)
relay_until_exact stop r w (suc fuel) ((seq, payload) ∷ ps) last rest s d f k e =
    let mid : List ℕ = wire (ps ++ last ∷ []) ++ rest in
    let next = after ((seq, payload) ∷ []) mid s in
    let tail : Ends stop ps last = record {
      go_on = d.go_on.1;
      last_fits = d.last_fits;
      stops = d.stops;
    } in
    ground (
      arith,
      append_assoc (encoding (packet seq payload)) (wire (ps ++ last ∷ [])) rest,
      relay_exact r w seq payload mid s d.go_on.0.0,
      d.go_on.0.1,
      relay_until_exact stop r w fuel ps last rest next tail,
      after-after ((seq, payload) ∷ []) (ps ++ last ∷ []) mid rest s,
    )

-- The two forms of a response: one OK or ERR packet; or a column count, the column definitions and
-- an EOF packet, the rows and an EOF or ERR packet.
pub data Response : Type 0 where
  single : Sent → Response
  table : Sent → List Sent → Sent → List Sent → Sent → Response

abbrev pub packets : Response → List Sent
packets (single p) = p ∷ []
packets (table count columns eof rows last) = count ∷ ((columns ++ eof ∷ []) ++ (rows ++ last ∷ []))

abbrev pub is_final : List ℕ → Bool
is_final payload = is_ok_packet payload || is_err_packet payload

-- Every packet fits in one, and only the packets that should end a loop do.
abbrev pub WellFormed : Response → Type 0
WellFormed (single p) = Fits p × (is_final p.1 ≡ true)
WellFormed (table count columns eof rows last) =
    Fits count
    × (is_final count.1 ≡ false)
    × Ends is_eof_packet columns eof
    × Ends ends_rows rows last

result_set_exact :
    (columns : List Sent) (eof : Sent) (rows : List Sent) (last : Sent) (rest : List ℕ)
    (s : Session)
    → Ends is_eof_packet columns eof
    → Ends ends_rows rows last
    → 2 * length ((columns ++ eof ∷ []) ++ (rows ++ last ∷ [])) ≤ s.client.writes_left
    → s.backend.incoming ≡ wire ((columns ++ eof ∷ []) ++ (rows ++ last ∷ [])) ++ rest
    → result_set s ≡ ok tt (after ((columns ++ eof ∷ []) ++ (rows ++ last ∷ [])) rest s)
unfolding result_set
result_set_exact columns eof rows last rest s d d' k e =
    let cs : List Sent = columns ++ eof ∷ [] in
    let rs : List Sent = rows ++ last ∷ [] in
    let mid : List ℕ = wire rs ++ rest in
    let next = after cs mid s in
    ground (
      arith,
      wire-append cs rs,
      append_assoc (wire cs) (wire rs) rest,
      length-append cs rs,
      length-append columns (eof ∷ []),
      length-append rows (last ∷ []),
      length-append (wire cs) mid,
      length-append (wire rs) rest,
      length-le-wire cs,
      length-le-wire rs,
      relay_until_exact is_eof_packet read_column column_to_client (rounds s) columns eof mid s d,
      relay_until_exact ends_rows read_row row_to_client (rounds next) rows last rest next d',
      after-after cs rs mid rest s,
    )

-- A well-formed response that the client takes whole is passed on to its last packet, and what the
-- backend sends behind it stays unread.
pub read_response_exact :
    (r : Response) (rest : List ℕ) (s : Session)
    → WellFormed r
    → 2 * length (packets r) ≤ s.client.writes_left
    → s.backend.incoming ≡ wire (packets r) ++ rest
    → read_response s ≡ ok tt (after (packets r) rest s)
unfolding read_response
read_response_exact (single (seq, payload)) rest s d k e = ground (
  arith,
  append_assoc (encoding (packet seq payload)) [] rest,
  relay_exact backend_response response_to_client seq payload rest s d.0,
)
read_response_exact (table (seq, payload) columns eof rows last) rest s d k e =
    let more : List Sent = (columns ++ eof ∷ []) ++ (rows ++ last ∷ []) in
    let mid : List ℕ = wire more ++ rest in
    let next = after ((seq, payload) ∷ []) mid s in
    ground (
      arith,
      append_assoc (encoding (packet seq payload)) (wire more) rest,
      relay_exact backend_response response_to_client seq payload mid s d.0,
      result_set_exact columns eof rows last rest next d.2 d.3,
      after-after ((seq, payload) ∷ []) more mid rest s,
    )
