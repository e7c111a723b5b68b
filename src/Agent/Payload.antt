-- ===== src/Agent/Payload.antt =====
-- sdk/host.go, (*ParseCtx).GetPayload: the payload is read once and kept in the context.
use deepflow_wasm_go_sdk.Prelude.{
  ℕ, zero, suc, refl, ◌↔◌, Bool-cases, Option-cases, leb, leb→le, not_leb→lt, ==_iff, ◌⊎◌, inl, inr,
  ◌≤◌, ◌<◌, ◌≡◌, sym, Option, none, some, ◌++◌, arith, ltb, le→not_ltb, ◌==◌, if◌then◌else◌, length,
  take, replicate, ◌^◌, ◌≢◌, length-take, length-append, length-replicate, take-take,
  take-append_le, ◌∙◌,
}
use deepflow_wasm_go_sdk.Prelude.Int.{ℤ, pos, negsuc, is_neg}
use deepflow_wasm_go_sdk.Log.{payload_over_page}
use deepflow_wasm_go_sdk.Go.Result.{ok}
use deepflow_wasm_go_sdk.Go.Slices.{Bytes, index, slice_past}
use deepflow_wasm_go_sdk.Host.{ParseCtx, page_size}
use deepflow_wasm_go_sdk.Agent.{
  HostFunctions, Vm, pure, ◌>>=◌, ◌>>◌, front, front_fits, or_panic, log, read_into,
}

index_zeros : (n : ℕ) → n ≢ 0 → index (replicate n 0) 0 ≡ ok 0
unfolding index
index_zeros zero nz = absurd (nz refl)
index_zeros (suc n) nz = refl

-- The agent returns more than the length of the buffer.
abbrev pub Exceeds : ℕ → ℤ → Type 0
Exceeds n (pos k) = n < k
Exceeds n (negsuc k) = ⊥

module _ {H : Type 0} (host : HostFunctions H) where
  open host use {vm_read_payload}

  -- The context behind the call, and the payload: `none` is the error "read payload fail".
  -- &payload[0] indexes the new buffer.
  unfoldable pub read_payload : ParseCtx → Vm H (ParseCtx × Option Bytes)
  read_payload ctx = do
    (if ltb page_size ctx.buf_size then log host (payload_over_page ctx.buf_size) else pure tt)
    first ← or_panic (index (replicate ctx.buf_size 0) 0)
    (payload, payload_size) ← read_into host vm_read_payload ctx.buf_size
    (if is_neg payload_size then pure (ctx, none) else (do
      kept ← front payload payload_size
      pure (record ctx { payload = some kept }, some kept)))

  unfoldable pub get_payload : ParseCtx → Vm H (ParseCtx × Option Bytes)
  get_payload ctx = elim ctx.payload [ some p ↦ pure (ctx, some p) | none ↦ read_payload ctx ]

  -- A payload that has been read is given as it is kept.
  pub get_payload_kept :
      (ctx : ParseCtx) (kept : Bytes) (h : H)
      → ctx.payload ≡ some kept
      → get_payload ctx h ≡ some ((ctx, some kept), h)
  unfolding get_payload
  get_payload_kept ctx kept h e = ground arith

  -- GetPayload reads the agent at most once: behind a call that gave a payload, the context keeps it,
  -- and a later call gives it again and leaves the agent as it is.
  pub get_payload_again :
      (ctx ctx' : ParseCtx) (payload : Bytes) (h h' h2 : H)
      → get_payload ctx h ≡ some ((ctx', some payload), h')
      → get_payload ctx' h2 ≡ some ((ctx', some payload), h2)
  unfolding get_payload read_payload
  get_payload_again ctx ctx' payload h h' h2 e = ground arith

  -- GetPayload, where the payload has not been read, BufSize is neither 0 nor 2^16 or more, and
  -- the agent returns a size that is at most BufSize and at most what it wrote: it gives that many
  -- bytes of what the agent wrote, keeps them in the context and changes nothing else of it, and
  -- logs nothing.
  pub get_payload_reads :
      (ctx : ParseCtx) (h h' : H) (written : Bytes) (n : ℕ)
      → ctx.payload ≡ none
      → ctx.buf_size ≢ 0
      → ctx.buf_size < 2 ^ 16
      → vm_read_payload h ctx.buf_size ≡ (h', written, pos n)
      → n ≤ length written
      → n ≤ ctx.buf_size
      → get_payload ctx h
        ≡ some ((record ctx { payload = some (take n written) }, some (take n written)), h')
  unfolding get_payload read_payload read_into
  get_payload_reads ctx h h' written n p nz small r long fits =
      let zeros : Bytes = replicate ctx.buf_size 0 in
      let buffer : Bytes = take ctx.buf_size (written ++ zeros) in
      let room : ctx.buf_size ≤ length (written ++ zeros) =
        omega (arith, length-append written zeros, length-replicate {A = ℕ} ctx.buf_size 0) in
      let size : length buffer ≡ ctx.buf_size = length-take ctx.buf_size (written ++ zeros) room in
      let same : take n buffer ≡ take n written =
        take-take n ctx.buf_size (written ++ zeros) fits ∙ take-append_le n written zeros long in
      rw (
        p,
        le→not_ltb ctx.buf_size page_size (omega arith),
        index_zeros ctx.buf_size nz,
        r,
        front_fits buffer n h' (omega arith),
        same,
      )

  length-buffer : (n : ℕ) (written : Bytes) → length (take n (written ++ replicate n 0)) ≡ n
  length-buffer n written =
      length-take n (written ++ replicate n 0)
        (omega (arith, length-append written (replicate n 0), length-replicate {A = ℕ} n 0))

  front_past :
      {B : Type 0} (buffer : Bytes) (k : ℕ) (f : Bytes → B) (h : H)
      → length buffer < k
      → (front buffer (pos k) >>= λ kept. pure (f kept)) h ≡ none
  unfolding front
  front_past buffer k f h lt = rw (slice_past buffer 0 k lt)

  -- The first byte of no bytes.
  read_payload_empty : (ctx : ParseCtx) (h : H) → ctx.buf_size ≡ 0 → read_payload ctx h ≡ none
  unfolding read_payload index
  read_payload_empty ctx h z = rw z refl

  -- `[:k]` of a buffer panics exactly if `k` is more than its length.
  front_panics_iff :
      {B : Type 0} (buffer : Bytes) (k : ℕ) (f : Bytes → B) (h : H)
      → (((front buffer (pos k) >>= λ kept. pure (f kept)) h ≡ none)) ↔ (length buffer < k)
  front_panics_iff buffer k f h = elim (Bool-cases (leb k (length buffer))) [
    | inl fits ↦
        rw (front_fits buffer k h (leb→le k (length buffer) fits))
          (λ e. cc, λ lt. absurd (omega (arith, leb→le k (length buffer) fits)))
    | inr past ↦
        let lt : length buffer < k = not_leb→lt k (length buffer) past in
        (λ e. lt, λ l. front_past buffer k f h lt)
  ]

  read_payload_panics_iff :
      (ctx : ParseCtx) (h h' : H) (written : Bytes) (size : ℤ)
      → ctx.buf_size ≢ 0
      → ctx.buf_size < 2 ^ 16
      → vm_read_payload h ctx.buf_size ≡ (h', written, size)
      → (read_payload ctx h ≡ none) ↔ Exceeds ctx.buf_size size
  unfolding read_payload read_into
  read_payload_panics_iff ctx h h' written (negsuc k) nz small r =
      rw (le→not_ltb ctx.buf_size page_size (omega arith), index_zeros ctx.buf_size nz, r)
        (λ e. cc, λ x. absurd x)
  read_payload_panics_iff ctx h h' written (pos k) nz small r =
      let buffer : Bytes = take ctx.buf_size (written ++ replicate ctx.buf_size 0) in
      let size : length buffer ≡ ctx.buf_size = length-buffer ctx.buf_size written in
      let answer : Bytes → ParseCtx × Option Bytes =
        λ kept. (record ctx { payload = some kept }, some kept) in
      let iff : (((front buffer (pos k) >>= λ kept. pure (answer kept)) h' ≡ none))
          ↔ (length buffer < k) =
        front_panics_iff buffer k answer h' in
      rw (le→not_ltb ctx.buf_size page_size (omega arith), index_zeros ctx.buf_size nz, r)
        (λ e. omega (arith, iff.0 e), λ l. iff.1 (omega arith))

  get_payload_unread :
      (ctx : ParseCtx) (h : H) → ctx.payload ≡ none → get_payload ctx h ≡ read_payload ctx h
  unfolding get_payload
  get_payload_unread ctx h e = ground arith

  unread_panics_iff :
      (ctx : ParseCtx) (h h' : H) (written : Bytes) (size : ℤ)
      → ctx.buf_size < 2 ^ 16
      → vm_read_payload h ctx.buf_size ≡ (h', written, size)
      → (read_payload ctx h ≡ none) ↔ ((ctx.buf_size ≡ 0) ⊎ Exceeds ctx.buf_size size)
  unread_panics_iff ctx h h' written size small r = elim (Bool-cases (ctx.buf_size == 0)) [
    | inl z ↦
        let zero_size : ctx.buf_size ≡ 0 = (==_iff ctx.buf_size 0).0 z in
        (λ e. inl zero_size, λ c. read_payload_empty ctx h zero_size)
    | inr z ↦
        let nz : ctx.buf_size ≢ 0 = ground arith in
        let iff : (read_payload ctx h ≡ none) ↔ Exceeds ctx.buf_size size =
          read_payload_panics_iff ctx h h' written size nz small r in
        (λ e. inr (iff.0 e), λ c. elim c [ inl e ↦ absurd (nz e) | inr x ↦ iff.1 x ])
  ]

  -- GetPayload panics exactly if the payload has not been read, and BufSize, a number of 16 bits, is 0
  -- or less than the size that the agent returns.
  pub get_payload_panics_iff :
      (ctx : ParseCtx) (h h' : H) (written : Bytes) (size : ℤ)
      → ctx.buf_size < 2 ^ 16
      → vm_read_payload h ctx.buf_size ≡ (h', written, size)
      → (get_payload ctx h ≡ none)
        ↔ ((ctx.payload ≡ none) × ((ctx.buf_size ≡ 0) ⊎ Exceeds ctx.buf_size size))
  get_payload_panics_iff ctx h h' written size small r = elim (Option-cases ctx.payload) [
    | inr (kept, p) ↦ (λ e. cc (get_payload_kept ctx kept h p), λ (q, c). cc)
    | inl p ↦
        let iff = unread_panics_iff ctx h h' written size small r in
        (
          λ e. (p, iff.0 (sym (get_payload_unread ctx h p) ∙ e)),
          λ (q, c). get_payload_unread ctx h p ∙ iff.1 c,
        )
  ]
