-- ===== src/Protocol/Validate/Resume.antt =====
-- `validate_response` of src/protocol/mod.rs on a buffer that is extended.
use client_rust.Prelude.{
  ℕ, ◌+◌, ◌-◌, ◌≤◌, ◌<◌, ◌≡◌, refl, ◌∙◌, Bytes, Bool, true, false, ◌==◌, ltb, length, some,
  get_elem?, get_elem?_total, get_elem?-append, length-append, arith, inr, dec_lt, if◌then◌else◌,
}
use client_rust.Std.{FloatParse}
use client_rust.Response.{error}
use client_rust.Protocol.Outcome.{Decoder, Outcome, done, Method, bind}
use client_rust.Protocol.Cursor.{decoder}
use client_rust.Protocol.Cursor.Laws.{next_lem, remaining_lem}
use client_rust.Protocol.Extend.{extend, IsValid, Follows, Advances-refl, Follows-from}
use client_rust.Protocol.Extend.Follow.{Follows-bind, Advances-IsValid}
use client_rust.Protocol.State.{completed, pending}
use client_rust.Protocol.Lfs
use client_rust.Protocol.Value.{ValueStream, ValueState, initialize_stream}
use client_rust.Protocol.Value.Ready.{PendingReady, StreamReady}
use client_rust.Protocol.Value.Dispatch.{try_complete_self-Follows, next_value_with_code-Follows}
use client_rust.Protocol.Value.Resume as ValueResume
use client_rust.Protocol.Stream
use client_rust.Protocol.Stream.Total.{complete_items-Follows}
use client_rust.Protocol.Multi
use client_rust.Protocol.Multi.{MultiValueStream}
use client_rust.Protocol.Multi.Loop.{MultiReady}
use client_rust.Protocol.Multi.Resume as MultiResume
use client_rust.Protocol.Validate.{
  ResponseState, initial, p_value, p_error, p_row, p_multi_row, DecodeState, from_le_bytes,
  complete_error, complete_row, complete_rows, begin_response, validate, value_response,
  row_response, rows_response,
}

-- A response of which something was received: never the initial state.
abbrev pub InProgress : ResponseState → ℕ → Type 0
InProgress initial i = ⊥
InProgress (p_value pv) i = PendingReady pv i
InProgress p_error i = Unit
InProgress (p_row vs) i = StreamReady vs i
InProgress (p_multi_row mvs) i = MultiReady mvs i

-- A response can be decoded on from here; a new one needs a byte.
abbrev pub CanDecode : ResponseState → Decoder → Type 0
CanDecode initial d = d.i < length d.b
CanDecode (p_value pv) d = PendingReady pv d.i
CanDecode p_error d = Unit
CanDecode (p_row vs) d = StreamReady vs d.i
CanDecode (p_multi_row mvs) d = MultiReady mvs d.i

pub complete_error_short :
    (d : Decoder)
    → d.i ≤ length d.b
    → length d.b < d.i + 2
    → complete_error d ≡ done (pending p_error) d
unfolding complete_error
complete_error_short d h k =
    let short : ltb (length d.b - d.i) 2 ≡ true = ground arith in rw (remaining_lem d h, short)

pub complete_error_full :
    (d : Decoder) (lo hi : ℕ)
    → d.i + 2 ≤ length d.b
    → get_elem? d.b d.i ≡ some lo
    → get_elem? d.b (d.i + 1) ≡ some hi
    → complete_error d ≡ done (completed (error (from_le_bytes lo hi))) (decoder d.b (d.i + 1 + 1))
unfolding complete_error
complete_error_full d lo hi h e₁ e₂ =
    let long : ltb (length d.b - d.i) 2 ≡ false = ground arith in
    rw (
      remaining_lem d (omega arith),
      long,
      next_lem d lo e₁,
      next_lem (decoder d.b (d.i + 1)) hi e₂,
    )

module _ (fp : FloatParse) (more : Bytes) (some_more : 0 < length more) where
  abbrev Resumes : Decoder → Method DecodeState → Type 0
  Resumes d m = Follows ⊥ InProgress (validate fp) more d (m (extend d more)) (m d)

  complete_error-Follows : (d : Decoder) → IsValid d → Resumes d complete_error
  complete_error-Follows d v = elim (dec_lt (length d.b) (d.i + 2)) [
    | yes short ↦
        rw (complete_error_short d v.1 short)
          (Advances-refl d v.1, tt, inr (unfold validate in refl))
    | no long ↦
        let (lo, e₁) = get_elem?_total d.i d.b (omega arith) in
        let (hi, e₂) = get_elem?_total (d.i + 1) d.b (omega arith) in
        rw
          (
            complete_error_full d lo hi (omega arith) e₁ e₂,
            complete_error_full (extend d more) lo hi (omega (arith, length-append d.b more))
                (get_elem?-append d.i d.b more (omega arith) ∙ e₁)
                (get_elem?-append (d.i + 1) d.b more (omega arith) ∙ e₂),
          )
          ((refl, omega arith, omega arith), inr refl)
  ]

  complete_row-Follows :
      (vs : ValueStream) (d : Decoder)
      → IsValid d
      → StreamReady vs d.i
      → Resumes d (complete_row fp vs)
  unfolding complete_row Stream.complete
  complete_row-Follows vs d v r =
      Follows-bind ⊥ StreamReady (Stream.complete fp) InProgress (validate fp) more
        (λ q d₁. done (row_response q) d₁) d (Stream.complete fp vs (extend d more))
        (Stream.complete fp vs d) (λ c d' a. (Advances-refl d' (Advances-IsValid v a).1, inr refl))
        (λ pv d' a q. (Advances-refl d' (Advances-IsValid v a).1, q, inr (unfold validate in refl)))
        (ValueResume.complete_stream-Follows ⊥ (λ _. Unit) (λ m n h u. u) fp
          (Stream.complete_items fp) more (complete_items-Follows fp more some_more) vs d v r tt)

  complete_rows-Follows :
      (mvs : MultiValueStream) (d : Decoder)
      → IsValid d
      → MultiReady mvs d.i
      → Resumes d (complete_rows fp mvs)
  unfolding complete_rows
  complete_rows-Follows mvs d v r =
      Follows-bind ⊥ MultiReady (Multi.complete fp) InProgress (validate fp) more
        (λ q d₁. done (rows_response q) d₁) d (Multi.complete fp mvs (extend d more))
        (Multi.complete fp mvs d) (λ c d' a. (Advances-refl d' (Advances-IsValid v a).1, inr refl))
        (λ pv d' a q. (Advances-refl d' (Advances-IsValid v a).1, q, inr (unfold validate in refl)))
        (MultiResume.complete-Follows fp more some_more mvs d v r)

  -- A value's outcome as a response.
  value-Follows :
      (d : Decoder) (whole out : Outcome ValueState)
      → IsValid d
      → Follows ⊥ PendingReady (Stream.try_complete_self fp) more d whole out
      → Follows ⊥ InProgress
          (validate fp)
          more
          d
          (bind whole (λ r d₁. done (value_response r) d₁))
          (bind out (λ r d₁. done (value_response r) d₁))
  value-Follows d whole out v w =
      Follows-bind ⊥ PendingReady (Stream.try_complete_self fp) InProgress (validate fp) more
        (λ r d₁. done (value_response r) d₁) d whole out
        (λ c d' a. (Advances-refl d' (Advances-IsValid v a).1, inr refl))
        (λ pv d' a q. (Advances-refl d' (Advances-IsValid v a).1, q, inr (unfold validate in refl)))
        w

  if-Follows :
      (b : Bool) (d : Decoder) (whole whole' out out' : Outcome DecodeState)
      → Follows ⊥ InProgress (validate fp) more d whole out
      → Follows ⊥ InProgress (validate fp) more d whole' out'
      → Follows ⊥ InProgress
          (validate fp)
          more
          d
          (if b then whole else whole')
          (if b then out else out')
  if-Follows true d whole whole' out out' h k = h
  if-Follows false d whole whole' out out' h k = k

  row-Follows :
      (d : Decoder) → IsValid d → Resumes d (λ d'. complete_row fp (initialize_stream d') d')
  unfolding initialize_stream Lfs.initialize
  row-Follows d v = complete_row-Follows (initialize_stream d) d v tt

  rows-Follows :
      (d : Decoder) → IsValid d → Resumes d (λ d'. complete_rows fp (Multi.initialize d') d')
  unfolding Multi.initialize Lfs.initialize
  rows-Follows d v = complete_rows-Follows (Multi.initialize d) d v (tt, refl)

  code-Follows :
      (code : ℕ) (d : Decoder)
      → IsValid d
      → Resumes d
          (λ d'. bind (Stream.next_value_with_code fp code d') (λ r d₁. done (value_response r) d₁))
  unfolding Stream.next_value_with_code Stream.try_complete_self
  code-Follows code d v =
      value-Follows d (Stream.next_value_with_code fp code (extend d more))
        (Stream.next_value_with_code fp code d) v
        (next_value_with_code-Follows ⊥ (λ _. Unit) (λ m n h u. u) fp (Stream.complete_items fp)
          more (complete_items-Follows fp more some_more) code d v tt)

  pub begin_response-Follows :
      (code : ℕ) (d : Decoder) → IsValid d → Resumes d (begin_response fp code)
  unfolding begin_response
  begin_response-Follows code d v = if-Follows (code == 0x0F) d _ _ _ _ (inr refl) (
      if-Follows (code == 0x10) d _ _ _ _ (complete_error-Follows d v) (
        if-Follows (code == 0x11) d _ _ _ _ (row-Follows d v) (
          if-Follows (code == 0x12) d _ _ _ _ (Advances-refl d v.1, inr refl)
            (if-Follows (code == 0x13) d _ _ _ _ (rows-Follows d v) (code-Follows code d v)))))

  pub validate-Follows :
      (s : ResponseState) (d : Decoder) → IsValid d → CanDecode s d → Resumes d (validate fp s)
  unfolding validate
  validate-Follows initial d v h =
      let (c, found) = get_elem?_total d.i d.b h in
      rw (next_lem d c found, next_lem (extend d more) c (get_elem?-append d.i d.b more h ∙ found))
        (Follows-from ⊥ InProgress (validate fp) more d (decoder d.b (d.i + 1)) _ _
          (refl, omega arith, omega arith)
          (begin_response-Follows c (decoder d.b (d.i + 1)) (v.0, omega arith)))
  validate-Follows (p_value pv) d v r =
      value-Follows d (Stream.try_complete_self fp pv (extend d more))
        (Stream.try_complete_self fp pv d) v
        (unfold Stream.try_complete_self in
          try_complete_self-Follows ⊥ (λ _. Unit) (λ m n h u. u) fp (Stream.complete_items fp) more
            (complete_items-Follows fp more some_more) pv d v r tt)
  validate-Follows p_error d v r = complete_error-Follows d v
  validate-Follows (p_row vs) d v r = complete_row-Follows vs d v r
  validate-Follows (p_multi_row mvs) d v r = complete_rows-Follows mvs d v r
