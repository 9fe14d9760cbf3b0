-- ===== src/Web/HttpParser/Feed/Capacity.antt =====
-- The parser with memory, but for the capacity of the body's buffer and what it says it consumed: no
-- operation looks at these otherwise (modules/web/src/http/parser.c).
use blue_bird.Prelude.{
  ℕ, ◌*◌, ◌≡◌, refl, sym, ap, ◌∙◌, inl, inr, Bool, true, Option, none, some, arith, ◌>>=◌, ◌==◌,
  ltb, leb, if◌then◌else◌, length, Bytes, Bool-cases, Option-cases,
}
use blue_bird.Web.HttpParser.{
  Parser, Line, reset_line, Body, Header, body_reserve, max_header_count, max_header_size,
}
use blue_bird.Web.HttpParser.Fields.{
  parse_field_line, apply_content_length, apply_transfer_encoding,
}
use blue_bird.Web.HttpParser.Feed.{
  on_start_line, finish_headers, apply_framing, on_header_line, on_chunk_size_line, on_chunk_end,
  on_trailer_line,
}

abbrev pub ample : ℕ → Bool
ample size = true

abbrev pub forget : Parser → Parser
forget p = record p { body = record (p.body) { body_cap = 0 }; last_consumed = 0 }

abbrev pub forget_some : Option Parser → Option Parser
forget_some none = none
forget_some (some p) = some (forget p)

-- An operation that treats two parsers alike that differ in these.
abbrev pub IsBlind : (Parser → Option Parser) → Type 0
IsBlind f = (p : Parser) → forget_some (f p) ≡ forget_some (f (forget p))

pub body_reserve-ample :
    (b : Body) (n : ℕ) → (cap : ℕ) × (body_reserve ample b n ≡ some (record b { body_cap = cap }))
unfolding body_reserve
body_reserve-ample b n = elim (Bool-cases (leb n b.body_cap)) [
  | inl e ↦ (b.body_cap, rw (e, body_reserve) refl)
  | inr e ↦
      let doubled = if b.body_cap == 0 then 4096 else b.body_cap * 2 in
      let enough = if ltb doubled n then n else doubled in
      (if ltb 16777216 enough then 16777216 else enough, rw (e, body_reserve) refl)
]

pub start-IsBlind : IsBlind on_start_line
unfolding on_start_line
start-IsBlind p = ground arith

pub chunk_size-IsBlind : IsBlind on_chunk_size_line
unfolding on_chunk_size_line
chunk_size-IsBlind p = ground arith

pub chunk_end-IsBlind : IsBlind on_chunk_end
unfolding on_chunk_end
chunk_end-IsBlind p = ground arith

pub trailer-IsBlind : IsBlind (on_trailer_line ample)
unfolding on_trailer_line
trailer-IsBlind p = ground arith

finish_headers-IsBlind : IsBlind (finish_headers ample)
unfolding finish_headers
finish_headers-IsBlind p =
    let (cap, e) = body_reserve-ample p.body p.content_length in
    let (cap', e') = body_reserve-ample (forget p).body p.content_length in ground (arith, e, e')

content_length-IsBlind : (value : Bytes) → IsBlind (λ p. apply_content_length p value)
unfolding apply_content_length
content_length-IsBlind value p = ground arith

transfer_encoding-IsBlind : (value : Bytes) → IsBlind (λ p. apply_transfer_encoding p value)
unfolding apply_transfer_encoding
transfer_encoding-IsBlind value p = ground arith

apply_framing-IsBlind : (field : Header) → IsBlind (λ p. apply_framing p field)
unfolding apply_framing
apply_framing-IsBlind field p =
    ground (arith, content_length-IsBlind field.value p, transfer_encoding-IsBlind field.value p)

abbrev with_line : Line → Option Parser → Option Parser
with_line l o = o >>= λ q. some (record q { line = l })

forget_line :
    (l : Line) (o : Option Parser) → forget_some (with_line l o) ≡ with_line l (forget_some o)
forget_line l none = refl
forget_line l (some q) = refl

pub header-IsBlind : IsBlind (on_header_line ample)
unfolding on_header_line
header-IsBlind p =
    let l = reset_line p.line max_header_size in
    elim (Bool-cases (length p.line.buf == 0)) [
      | inl e ↦ rw (e, on_header_line) (finish_headers-IsBlind p)
      | inr e ↦
          elim (Option-cases (
            parse_field_line ample max_header_count max_header_size p.line.buf p.message.headers
              p.header_bytes_total)) [
                | inl n ↦ rw (e, on_header_line) (rw n refl)
                | inr (f, s) ↦
                    let q = record p {
                      message = record (p.message) { headers = f.0 };
                      header_bytes_total = f.1;
                    } in
                    rw (e, on_header_line)
                      (rw s (
                        forget_line l (apply_framing q f.2)
                        ∙ ap (with_line l) (apply_framing-IsBlind f.2 q)
                        ∙ sym (forget_line l (apply_framing (forget q) f.2))))
              ]
    ]
