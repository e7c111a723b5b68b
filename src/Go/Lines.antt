-- ===== src/Go/Lines.antt =====
-- bufio: ReadLine of a Reader on bytes that are there. Its buffer has 4096 bytes.
use deepflow_wasm_go_sdk.Prelude.{
  subst, ◌≤◌, Bool-cases, inl, inr, ℕ, zero, suc, ◌≡◌, ◌<◌, ◌+◌, refl, false, Option, none, some,
  [], ◌∷◌, ◌++◌, ◌==◌, if◌then◌else◌, All, length, arith, ap, sym, ◌∙◌, append_assoc, length-append,
  All-append,
}
use deepflow_wasm_go_sdk.Go.Slices.{Bytes}

-- How a line ends: with a line feed, with the input, or with the buffer.
pub data LineEnd : Type 0 where
  line_feed input_end buffer_full : LineEnd

pub record Line : Type 0 where
  pub text : Bytes
  pub ended : LineEnd
  pub rest : Bytes

abbrev longer : ℕ → Line → Line
longer b l = record l { text = b ∷ l.text }

-- ReadSlice up to a line feed, with `k` bytes left of the buffer.
unfoldable pub read_slice : ℕ → Bytes → Line
read_slice zero bs = record { text = []; ended = buffer_full; rest = bs }
read_slice (suc k) [] = record { text = []; ended = input_end; rest = [] }
read_slice (suc k) (b ∷ bs) =
    let later = longer b (read_slice k bs) in
    if b == 10 then record { text = []; ended = line_feed; rest = bs } else later

-- The text without a carriage return at its end, and that carriage return.
unfoldable pub strip_return : Bytes → Bytes × Bytes
strip_return [] = ([], [])
strip_return (b ∷ []) = if b == 13 then ([], b ∷ []) else (b ∷ [], [])
strip_return (b ∷ c ∷ bs) = let (text, end) = strip_return (c ∷ bs) in (b ∷ text, end)

-- The line and what is behind it. A carriage return at the end of a full buffer is left for later.
abbrev finish : LineEnd → Bytes → Bytes → Bytes × Bytes
finish line_feed text rest = ((strip_return text).0, rest)
finish input_end text rest = (text, rest)
finish buffer_full text rest = ((strip_return text).0, (strip_return text).1 ++ rest)

abbrev finish_line : Line → Bytes × Bytes
finish_line l = finish l.ended l.text l.rest

-- ReadLine: none is io.EOF.
unfoldable pub read_line : Bytes → Option (Bytes × Bytes)
read_line [] = none
read_line (b ∷ bs) = some (finish_line (read_slice 4096 (b ∷ bs)))

read_slice-line :
    (k : ℕ) (s rest : Bytes)
    → length s < k
    → All (λ b. (b == 10) ≡ false) s
    → read_slice k (s ++ (10 ∷ rest)) ≡ record { text = s; ended = line_feed; rest = rest }
unfolding read_slice
read_slice-line zero s rest h all = absurd (omega arith)
read_slice-line (suc k) [] rest h all = refl
read_slice-line (suc k) (b ∷ s) rest h (hb, hs) = rw (hb, read_slice-line k s rest (omega arith) hs)

strip_return-crlf : (s : Bytes) → strip_return (s ++ (13 ∷ [])) ≡ (s, 13 ∷ [])
unfolding strip_return
strip_return-crlf [] = refl
strip_return-crlf (b ∷ []) = refl
strip_return-crlf (b ∷ c ∷ s) = rw (strip_return-crlf (c ∷ s))

slice-crlf :
    (s rest : Bytes)
    → length s + 1 < 4096
    → All (λ b. (b == 10) ≡ false) s
    → read_slice 4096 (s ++ (13 ∷ 10 ∷ rest))
      ≡ record { text = s ++ (13 ∷ []); ended = line_feed; rest = rest }
slice-crlf s rest h all =
    ap (read_slice 4096) (sym (append_assoc s (13 ∷ []) (10 ∷ rest)))
    ∙ read_slice-line 4096 (s ++ (13 ∷ [])) rest (omega (arith, length-append s (13 ∷ [])))
        (All-append (λ b. (b == 10) ≡ false) s (13 ∷ []) all (refl, tt))

-- A text without a line feed, shorter than the buffer by two at least, is read up to CR LF.
pub read_line-crlf :
    (s rest : Bytes)
    → length s + 1 < 4096
    → All (λ b. (b == 10) ≡ false) s
    → read_line (s ++ (13 ∷ 10 ∷ rest)) ≡ some (s, rest)
unfolding read_line
read_line-crlf [] rest h all = rw (slice-crlf [] rest h all, strip_return-crlf [])
read_line-crlf (b ∷ s) rest h all = rw (slice-crlf (b ∷ s) rest h all, strip_return-crlf (b ∷ s))

read_slice-short : (k : ℕ) (bs : Bytes) → length (read_slice k bs).text ≤ k
unfolding read_slice
read_slice-short zero bs = omega arith
read_slice-short (suc k) [] = omega arith
read_slice-short (suc k) (b ∷ bs) = elim (Bool-cases (b == 10)) [
  | inl e ↦ rw e (omega arith)
  | inr e ↦ rw e (omega (arith, read_slice-short k bs))
]

strip_return-short : (bs : Bytes) → length (strip_return bs).0 ≤ length bs
unfolding strip_return
strip_return-short [] = omega arith
strip_return-short (b ∷ []) = elim (Bool-cases (b == 13)) [
  | inl e ↦ rw e (omega arith)
  | inr e ↦ rw e (omega arith)
]
strip_return-short (b ∷ c ∷ bs) = omega (arith, strip_return-short (c ∷ bs))

finish-short :
    (e : LineEnd) (text rest : Bytes) → length text ≤ 4096 → length (finish e text rest).0 ≤ 4096
finish-short line_feed text rest h = omega (arith, strip_return-short text)
finish-short input_end text rest h = h
finish-short buffer_full text rest h = omega (arith, strip_return-short text)

-- A line fits the buffer.
pub read_line_short : (bs line rest : Bytes) → read_line bs ≡ some (line, rest) → length line ≤ 4096
unfolding read_line
read_line_short [] line rest e = cc
read_line_short (b ∷ bs) line rest e =
    let l = read_slice 4096 (b ∷ bs) in
    let same : (finish_line l).0 ≡ line = cc in
    subst (λ s. length s ≤ 4096) same
      (finish-short l.ended l.text l.rest (read_slice-short 4096 (b ∷ bs)))
