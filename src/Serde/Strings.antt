-- ===== src/Serde/Strings.antt =====
-- sdk/serde.go, deserializeHttpReqCtx: the loop over strings that stand behind their lengths.
use deepflow_wasm_go_sdk.Prelude.{
  ℕ, zero, suc, ◌+◌, ◌^◌, ◌≤◌, ◌<◌, ◌≡◌, refl, sym, ◌∙◌, some, List, [], ◌∷◌, ◌++◌, arith, leb,
  le→leb, leb→le, ◌==◌, ==_iff, if◌then◌else◌, length, drop, All,
}
use deepflow_wasm_go_sdk.Log.{http_req_short}
use deepflow_wasm_go_sdk.Go.Result.{
  Result, ok, ◌>>=◌, ◌>>◌, guard, Ensures, holds, Ensures-bind, Ensures-guard, Ensures-if,
  Ensures-map,
}
use deepflow_wasm_go_sdk.Go.Slices.{Bytes, IsByte, slice, At, At-skip, slice-At, slice-Ensures}
use deepflow_wasm_go_sdk.Go.Binary.{uint16, put_uint16}
use deepflow_wasm_go_sdk.Go.Reads.{read_uint16-At, read_uint16-Ensures}

-- A string of length 0 is left as it was, empty, and `off` goes on without a check.
unfoldable pub read_body : Bytes → ℕ → ℕ → Result (Bytes × ℕ)
read_body b off n =
    let rest = do
      guard (leb (off + n) (length b)) (some http_req_short)
      s ← slice b off (off + n)
      ok (s, off + n)
    in if n == 0 then ok ([], off) else rest

-- One round of the loop: the string and the new `off`.
unfoldable pub read_str : Bytes → ℕ → Result (Bytes × ℕ)
read_str b off = do
  guard (leb (off + 2) (length b)) (some http_req_short)
  str_len ← slice b off (off + 2) >>= uint16
  read_body b (off + 2) str_len

-- The rounds that are left, from `off` on.
unfoldable pub read_strs : ℕ → Bytes → ℕ → Result (List Bytes)
read_strs zero b off = ok []
read_strs (suc k) b off = do (s, off1) ← read_str b off; ss ← read_strs k b off1; ok (s ∷ ss)

-- The bytes of a string, and of several, in front of `rest`.
abbrev pub str_format : Bytes → Bytes → Bytes
str_format s rest = put_uint16 (length s) ++ (s ++ rest)

abbrev pub strs_format : List Bytes → Bytes → Bytes
strs_format [] rest = rest
strs_format (s ∷ ss) rest = str_format s (strs_format ss rest)

abbrev pub IsShort : Bytes → Type 0
IsShort s = length s < 2 ^ 16

read_body-At :
    {off : ℕ} {b : Bytes} (s rest : Bytes)
    → At off b (s ++ rest)
    → read_body b off (length s) ≡ ok (s, off + length s)
unfolding read_body
read_body-At {off} [] rest a = let stay : off + 0 ≡ off = omega arith in rw stay
read_body-At {off} {b} (x ∷ s) rest a =
    let end : ℕ = off + suc (length s) in
    let behind : At end b rest = At-skip (x ∷ s) end a refl in
    ground (arith, slice-At (x ∷ s) rest end a refl, le→leb end (length b) behind.within)

pub read_strs-At :
    {off : ℕ} {b : Bytes} (ss : List Bytes) (rest : Bytes)
    → At off b (strs_format ss rest)
    → All IsShort ss
    → read_strs (length ss) b off ≡ ok ss
unfolding read_strs read_str
read_strs-At {off} {b} [] rest a h = refl
read_strs-At {off} {b} (s ∷ ss) rest a (h, hs) =
    let a2 : At (off + 2) b (s ++ strs_format ss rest) =
      At-skip (put_uint16 (length s)) (off + 2) a refl in
    let a3 : At (off + 2 + length s) b (strs_format ss rest) =
      At-skip s (off + 2 + length s) a2 refl in
    let ih = read_strs-At {off = off + 2 + length s} {b = b} ss rest a3 hs in
    rw (
      le→leb (off + 2) (length b) a2.within,
      read_uint16-At (length s) (s ++ strs_format ss rest) (off + 2) a refl h,
      read_body-At s (strs_format ss rest) a2,
      ih,
    )

module _ (b : Bytes) (hb : All IsByte b) where
  read_body-Ensures :
      (off n : ℕ)
      → off ≤ length b
      → Ensures
          (λ (s, off1). (length s ≡ n) × (drop off b ≡ s ++ drop off1 b) × (off1 ≤ length b))
          (read_body b off n)
  unfolding read_body
  read_body-Ensures off n h =
      Ensures-if (n == 0) (λ e. holds (sym ((==_iff n 0).0 e), refl, h))
        (λ _. Ensures-guard _ _ λ g.
          Ensures-bind (slice-Ensures b off (off + n) (omega arith) (leb→le _ _ g) hb)
            λ s (a, l, _). holds (omega arith, a.suffix, leb→le _ _ g))

  pub read_strs-Ensures :
      (k off : ℕ)
      → off ≤ length b
      → Ensures
          (λ ss.
            (length ss ≡ k)
            × All IsShort ss
            × ((rest : Bytes) × (drop off b ≡ strs_format ss rest)))
          (read_strs k b off)
  unfolding read_strs read_str
  read_strs-Ensures zero off h = holds (refl, tt, (drop off b, refl))
  read_strs-Ensures (suc k) off h =
      Ensures-bind
        {P = λ (s, off1). IsShort s × (drop off b ≡ str_format s (drop off1 b)) × (off1 ≤ length b)}
        (Ensures-guard _ _ λ g.
          Ensures-bind (read_uint16-Ensures b off (off + 2) refl (leb→le _ _ g) hb) λ n (a, hn).
            Ensures-map (read_body-Ensures (off + 2) n (leb→le _ _ g))
              λ (s, off1) (l, d, w). (omega arith, a.suffix ∙ cc, w))
        λ (s, off1) (hs, d, w).
          Ensures-bind (read_strs-Ensures k off1 w)
            λ ss (l, hss, (rest, e)). holds (omega arith, (hs, hss), (rest, cc))
