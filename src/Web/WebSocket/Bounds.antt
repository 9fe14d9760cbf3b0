-- ===== src/Web/WebSocket/Bounds.antt =====
-- One round of `bb_websocket_read_frames`: its outcomes and the memory that it reads
-- (modules/web/src/websocket/websocket.c).
use mathlib.Core.Path.{subst}
use blue_bird.Prelude.{
  ℕ, zero, suc, ◌+◌, ◌-◌, ◌/◌, ◌%◌, ◌^◌, ◌≤◌, ◌<◌, ◌≡◌, refl, sym, ◌∙◌, ◌↔◌, ◌⊎◌, inl, inr, Bool,
  true, false, [], ◌∷◌, ◌++◌, some, arith, ltb, Option-cases, Bool-cases, length, get_or, take,
  drop, Bytes, length-append, length-take, length-drop, get_or-append, take-drop-append,
}
use blue_bird.Web.WebSocket.RoundTrip.{length-mask_from}
use blue_bird.Web.WebSocket.Frame.{
  word, Frame, big_endian, read_length, read_key, read_payload, Parsed, more, no_memory,
  out_of_bounds, got, parse,
}

-- Where the header ends, once it is complete.
pub read_length-offset :
    (buf : Bytes) (n after : ℕ)
    → 2 ≤ length buf
    → read_length buf ≡ some (n, after)
    → (2 ≤ after) × (after ≤ 10) × (after ≤ length buf)
unfolding read_length
read_length-offset buf n after h e = ground arith

pub read_key-offset :
    (buf : Bytes) (masked after : ℕ) (key : Bytes) (offset : ℕ)
    → after ≤ length buf
    → read_key buf masked after ≡ some (key, offset)
    → (after ≤ offset) × (offset ≤ after + 4) × (offset ≤ length buf)
unfolding read_key
read_key-offset buf masked after key offset h e = ground arith

-- More bytes behind a complete part of the header change nothing.
module _ (buf more_bytes : Bytes) where
  read_length-append :
      (n after : ℕ)
      → 2 ≤ length buf
      → read_length buf ≡ some (n, after)
      → read_length (buf ++ more_bytes) ≡ some (n, after)
  unfolding read_length
  read_length-append n after h e = ground (
    arith,
    length-append buf more_bytes,
    get_or-append buf more_bytes 1 0 h,
    take-drop-append buf more_bytes 2 2,
    take-drop-append buf more_bytes 2 8,
  )

  read_key-append :
      (masked after : ℕ) (key : Bytes) (offset : ℕ)
      → read_key buf masked after ≡ some (key, offset)
      → read_key (buf ++ more_bytes) masked after ≡ some (key, offset)
  unfolding read_key
  read_key-append masked after key offset e =
      ground (arith, length-append buf more_bytes, take-drop-append buf more_bytes after 4)

  read_payload-append :
      (alloc : ℕ → Bool) (masked n : ℕ) (key : Bytes) (offset : ℕ) (f : Frame) (total : ℕ)
      → 2 ≤ length buf
      → read_payload alloc buf masked n key offset ≡ got f total
      → read_payload alloc (buf ++ more_bytes) masked n key offset ≡ got f total
  unfolding read_payload
  read_payload-append alloc masked n key offset f total h e = ground (
    arith,
    length-append buf more_bytes,
    get_or-append buf more_bytes 0 0 (omega arith),
    take-drop-append buf more_bytes offset n,
  )

-- A complete header of a buffer: the payload's length, the key, and where the header ends.
pub record HasHeader (buf : Bytes) (n : ℕ) (key : Bytes) (after offset : ℕ) : Type 0 where
  pub length_read : read_length buf ≡ some (n, after)
  pub key_read : read_key buf (get_or buf 1 0 / 128 % 2) after ≡ some (key, offset)

module _ (alloc : ℕ → Bool) (buf : Bytes) where
  abbrev pub payload_of : ℕ → Bytes → ℕ → Parsed
  payload_of n key offset = read_payload alloc buf (get_or buf 1 0 / 128 % 2) n key offset

  HasHeader-parse :
      (n : ℕ) (key : Bytes) (after offset : ℕ)
      → HasHeader buf n key after offset
      → parse alloc buf ≡ payload_of n key offset
  unfolding parse
  HasHeader-parse n key after offset h = ground (arith, h.length_read, h.key_read)

  parse_cases :
      (parse alloc buf ≡ more)
      ⊎ ((n : ℕ) × (key : Bytes) × (after : ℕ) × (offset : ℕ) × HasHeader buf n key after offset
          × (parse alloc buf ≡ payload_of n key offset))
  parse_cases = elim (Option-cases (read_length buf)) [
    | inl e ↦ inl (unfold parse in ground (arith, e))
    | inr ((n, after), e) ↦ elim (Option-cases (read_key buf (get_or buf 1 0 / 128 % 2) after)) [
      | inl k ↦ inl (unfold parse in ground (arith, e, k))
      | inr ((key, offset), k) ↦
          let h : HasHeader buf n key after offset = record { length_read = e; key_read = k } in
          inr (n, key, after, offset, h, HasHeader-parse n key after offset h)
    ]
  ]

-- A frame that is complete is read the same, however many bytes have come in behind it.
pub parse-append :
    (alloc : ℕ → Bool) (buf more_bytes : Bytes) (f : Frame) (total : ℕ)
    → 2 ≤ length buf
    → parse alloc buf ≡ got f total
    → parse alloc (buf ++ more_bytes) ≡ got f total
parse-append alloc buf more_bytes f total h e = elim (parse_cases alloc buf) [
  | inl none_yet ↦ cc
  | inr (n, key, after, offset, hd, run) ↦
      let second : get_or (buf ++ more_bytes) 1 0 ≡ get_or buf 1 0 =
        get_or-append buf more_bytes 1 0 h in
      let masked = get_or buf 1 0 / 128 % 2 in
      let longer : HasHeader (buf ++ more_bytes) n key after offset = record {
        length_read = read_length-append buf more_bytes n after h hd.length_read;
        key_read = rw second (read_key-append buf more_bytes masked after key offset hd.key_read);
      } in
      HasHeader-parse alloc (buf ++ more_bytes) n key after offset longer
      ∙ rw second
          (read_payload-append buf more_bytes alloc masked n key offset f total h (sym run ∙ e))
]

-- Every byte is below 256.
abbrev pub AreBytes : Bytes → Type 0
AreBytes [] = Unit
AreBytes (b ∷ bs) = (b < 256) × AreBytes bs

-- What is assumed of `malloc`: it refuses more than 2^63 - 1 bytes, and gives a pointer for 0.
pub record IsMalloc (alloc : ℕ → Bool) : Type 0 where
  pub refuses_huge : (n : ℕ) → alloc n ≡ true → n < 2 ^ 63
  pub gives_for_zero : alloc 0 ≡ true

AreBytes-drop : (n : ℕ) (bs : Bytes) → AreBytes bs → AreBytes (drop n bs)
AreBytes-drop zero bs h = h
AreBytes-drop (suc n) [] h = tt
AreBytes-drop (suc n) (b ∷ bs) (_, h) = AreBytes-drop n bs h

AreBytes-take : (n : ℕ) (bs : Bytes) → AreBytes bs → AreBytes (take n bs)
AreBytes-take zero bs h = tt
AreBytes-take (suc n) [] h = tt
AreBytes-take (suc n) (b ∷ bs) (lt, h) = (lt, AreBytes-take n bs h)

big_endian_two_lt : (bs : Bytes) → length bs ≡ 2 → AreBytes bs → big_endian 0 bs < word
unfolding big_endian
big_endian_two_lt (a ∷ b ∷ []) e h = omega arith
big_endian_two_lt _ e h = absurd (omega arith)

big_endian_eight_lt : (bs : Bytes) → length bs ≡ 8 → AreBytes bs → big_endian 0 bs < word
unfolding big_endian
big_endian_eight_lt (a ∷ b ∷ c ∷ d ∷ e ∷ f ∷ g ∷ i ∷ []) l h = omega arith
big_endian_eight_lt _ l h = absurd (omega arith)

-- The length that a header gives is a 64-bit word.
read_length-lt_word :
    (buf : Bytes) (n after : ℕ) → AreBytes buf → read_length buf ≡ some (n, after) → n < word
unfolding read_length
read_length-lt_word buf n after h e = ground (
  arith,
  length-take 2 (drop 2 buf),
  length-take 8 (drop 2 buf),
  length-drop 2 buf,
  λ (l : length (take 2 (drop 2 buf)) ≡ 2).
      big_endian_two_lt (take 2 (drop 2 buf)) l
        (AreBytes-take 2 (drop 2 buf) (AreBytes-drop 2 buf h)),
  λ (l : length (take 8 (drop 2 buf)) ≡ 8).
      big_endian_eight_lt (take 8 (drop 2 buf)) l
        (AreBytes-take 8 (drop 2 buf) (AreBytes-drop 2 buf h)),
)

read_payload-out_of_bounds :
    (alloc : ℕ → Bool) (buf : Bytes) (masked n : ℕ) (key : Bytes) (offset : ℕ)
    → IsMalloc alloc
    → length buf < 2 ^ 63
    → n < word
    → 2 ≤ offset
    → offset ≤ 14
    → offset ≤ length buf
    → (read_payload alloc buf masked n key offset ≡ out_of_bounds) ↔ (n ≡ word - 1)
unfolding read_payload
read_payload-out_of_bounds alloc buf masked n key offset m small lt low high inside = (there, back)
  where
    there : read_payload alloc buf masked n key offset ≡ out_of_bounds → n ≡ word - 1
    there e = ground (arith, m.refuses_huge ((n + 1) % word))

    back : n ≡ word - 1 → read_payload alloc buf masked n key offset ≡ out_of_bounds
    back e =
        let sum : (offset + n) % word ≡ offset - 1 = omega arith in
        let size : (n + 1) % word ≡ 0 = omega arith in
        let passes : ltb (length buf) (offset - 1) ≡ false = ground arith in
        let beyond : ltb (length buf) (offset + n) ≡ true = ground arith in
        rw (sum, size, passes, beyond, m.gives_for_zero)

-- What a round makes of a complete header that ends at `offset` and gives the length `n`.
pub data IsOutcome (alloc : ℕ → Bool) (buf : Bytes) (n offset : ℕ) : Parsed → Type 0 where
  waits : length buf < offset + n → IsOutcome alloc buf n offset more
  refused : offset + n ≤ length buf → alloc (n + 1) ≡ false → IsOutcome alloc buf n offset no_memory
  complete :
      offset + n ≤ length buf
      → alloc (n + 1) ≡ true
      → (f : Frame) → f.payload_length ≡ n
      → length f.payload ≡ n
      → IsOutcome alloc buf n offset (got f (offset + n))

read_payload-IsOutcome :
    (alloc : ℕ → Bool) (buf : Bytes) (masked n : ℕ) (key : Bytes) (offset : ℕ)
    → offset + n < word
    → 2 ≤ offset
    → IsOutcome alloc buf n offset (read_payload alloc buf masked n key offset)
unfolding read_payload
read_payload-IsOutcome alloc buf masked n key offset lt low =
    let size : (n + 1) % word ≡ n + 1 = omega arith in
    let sum : (offset + n) % word ≡ offset + n = omega arith in
    let raw = take n (drop offset buf) in
    elim (Bool-cases (ltb (length buf) (offset + n))) [
      | inl short ↦ rw (sum, short) (waits (ground (arith, short)))
      | inr passes ↦
          let inside : offset + n ≤ length buf = ground (arith, passes) in
          elim (Bool-cases (alloc (n + 1))) [
            | inr r ↦ rw (sum, passes, size, r) (refused inside r)
            | inl r ↦
                rw (sum, passes, size, r)
                  (complete inside r _ refl (
                    ground (
                      arith,
                      length-take n (drop offset buf),
                      length-drop offset buf,
                      length-mask_from key 0 raw,
                    )))
          ]
    ]

-- A round on a complete header whose offset and length add up to less than 2^64 waits for more bytes
-- while the payload is not there in full. Then it fails if there is no memory for the payload and a
-- NUL, and otherwise gives a frame with that many bytes of payload and ends where the payload ends.
-- The header has between 2 and 14 bytes.
pub parse-IsOutcome :
    (alloc : ℕ → Bool) (buf : Bytes) (n : ℕ) (key : Bytes) (after offset : ℕ)
    → 2 ≤ length buf
    → offset + n < word
    → HasHeader buf n key after offset
    → (2 ≤ offset) × (offset ≤ 14) × IsOutcome alloc buf n offset (parse alloc buf)
parse-IsOutcome alloc buf n key after offset h lt hd =
    let a = read_length-offset buf n after h hd.length_read in
    let k = read_key-offset buf _ after key offset a.2 hd.key_read in
    let payload = read_payload-IsOutcome alloc buf _ n key offset lt (omega (arith, a, k)) in
    (
      omega (arith, a, k),
      omega (arith, a, k),
      subst (IsOutcome alloc buf n offset) (sym (HasHeader-parse alloc buf n key after offset hd))
          payload,
    )

-- Reading runs out of bounds exactly at a complete header with the largest 64-bit length: the sum
-- that is compared with the received bytes wraps, and so does the size that is allocated.
pub parse-out_of_bounds :
    (alloc : ℕ → Bool) (buf : Bytes)
    → IsMalloc alloc
    → AreBytes buf
    → 2 ≤ length buf
    → length buf < 2 ^ 63
    → (parse alloc buf ≡ out_of_bounds)
      ↔ ((key : Bytes) × (after : ℕ) × (offset : ℕ) × HasHeader buf (word - 1) key after offset)
parse-out_of_bounds alloc buf m bytes h small = (there, back)
  where
    exactly :
        (n : ℕ) (key : Bytes) (after offset : ℕ)
        → HasHeader buf n key after offset
        → (read_payload alloc buf (get_or buf 1 0 / 128 % 2) n key offset ≡ out_of_bounds)
          ↔ (n ≡ word - 1)
    exactly n key after offset hd =
        let a = read_length-offset buf n after h hd.length_read in
        let k = read_key-offset buf _ after key offset a.2 hd.key_read in
        read_payload-out_of_bounds alloc buf _ n key offset m small
          (read_length-lt_word buf n after bytes hd.length_read) (omega (arith, a, k))
          (omega (arith, a, k)) (omega (arith, a, k))

    there :
        parse alloc buf ≡ out_of_bounds
        → (key : Bytes) × (after : ℕ) × (offset : ℕ) × HasHeader buf (word - 1) key after offset
    there e = elim (parse_cases alloc buf) [
      | inl none_yet ↦ cc
      | inr (n, key, after, offset, hd, run) ↦
          let largest : n ≡ word - 1 = (exactly n key after offset hd).0 (sym run ∙ e) in
          (key, after, offset, subst (λ l. HasHeader buf l key after offset) largest hd)
    ]

    back :
        (key : Bytes) × (after : ℕ) × (offset : ℕ) × HasHeader buf (word - 1) key after offset
        → parse alloc buf ≡ out_of_bounds
    back (key, after, offset, hd) =
        HasHeader-parse alloc buf (word - 1) key after offset hd
        ∙ (exactly (word - 1) key after offset hd).1 refl
