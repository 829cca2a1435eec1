-- ===== src/Protocol/Stream/Fuel.antt =====
-- The fuel of the loop of `ValueStream::_complete`, in src/protocol/mod.rs.
use client_rust.Prelude.{
  ℕ, zero, suc, refl, Bool, true, false, ◌==◌, inl, inr, Bool-cases, arith, if◌then◌else◌,
}
use client_rust.Std.{FloatParse}
use client_rust.Response.{Value, count}
use client_rust.Protocol.Outcome.{Decoder, Outcome, done, fail, panic, out_of_fuel, Method, bind}
use client_rust.Protocol.Cursor.{next, eof}
use client_rust.Protocol.Extend.{◌⊑◌}
use client_rust.Protocol.Extend.Follow.{⊑_bind, ⊑_trans}
use client_rust.Protocol.State.{completed, pending}
use client_rust.Protocol.Sp.{SizeState, complete_size}
use client_rust.Protocol.Value.{
  PendingValue, ValueStream, MaybePending, ValueState, value_stream, absent, present, list, items,
  initialize_stream, StreamLoop, complete_value, with_count, complete_stream, try_complete_self,
  next_value_with_code, next_value,
}
use client_rust.Protocol.Stream.{element, with_element, stream_round, stream_loop}

pub ⊑_under :
    {A B : Type 0} (r : Outcome A) (k k' : A → Method B)
    → ((a : A) (d : Decoder) → k a d ⊑ k' a d)
    → bind r k ⊑ bind r k'
⊑_under (done a d) k k' h = h a d
⊑_under (fail e d) k k' h = inr refl
⊑_under panic k k' h = inr refl
⊑_under out_of_fuel k k' h = inr refl

-- One method has the other's outcome wherever it does not run out of fuel.
abbrev pub Less : {A : Type 0} → Method A → Method A → Type 0
Less m m' = (d : Decoder) → m d ⊑ m' d

abbrev pub LessLoop : StreamLoop → StreamLoop → Type 0
LessLoop s s' = (vs : ValueStream) (size : ℕ) → Less (s vs size) (s' vs size)

if-Less :
    {A : Type 0} (b : Bool) (m m' n n' : Method A)
    → Less m m'
    → Less n n'
    → Less (if b then m else n) (if b then m' else n')
if-Less true m m' n n' hm hn = hm
if-Less false m m' n n' hm hn = hn

module _ (fp : FloatParse) (s s' : StreamLoop) (less : LessLoop s s') where
  with_count-Less :
      (vs : ValueStream) (n : SizeState) → Less (with_count s vs n) (with_count s' vs n)
  with_count-Less (value_stream n ws p) (completed c) d = less _ c d
  with_count-Less (value_stream n ws p) (pending pv) d = inr refl

  complete_stream-Less : (vs : ValueStream) → Less (complete_stream s vs) (complete_stream s' vs)
  unfolding complete_stream
  complete_stream-Less (value_stream n ws p) d =
      ⊑_under (complete_size n d) (with_count s (value_stream n ws p))
        (with_count s' (value_stream n ws p)) (with_count-Less (value_stream n ws p))

  list-Less :
      (vs : ValueStream)
      → Less
          (complete_value (complete_stream s) (λ x. Value.list (items x)) list vs)
          (complete_value (complete_stream s') (λ x. Value.list (items x)) list vs)
  unfolding complete_value
  list-Less vs d = ⊑_bind _ (complete_stream-Less vs d)

  try_complete_self-Less :
      (v : PendingValue) → Less (try_complete_self fp s v) (try_complete_self fp s' v)
  unfolding try_complete_self
  try_complete_self-Less (list vs) d = list-Less vs d
  try_complete_self-Less _ d = inr refl

  next_value_with_code-Less :
      (code : ℕ) → Less (next_value_with_code fp s code) (next_value_with_code fp s' code)
  unfolding next_value_with_code
  next_value_with_code-Less code =
      if-Less (code == 0x00) _ _ _ _ (λ d. inr refl)
        (if-Less (code == 0x01) _ _ _ _ (λ d. inr refl)
          (if-Less (code == 0x02) _ _ _ _ (λ d. inr refl)
            (if-Less (code == 0x03) _ _ _ _ (λ d. inr refl)
              (if-Less (code == 0x04) _ _ _ _ (λ d. inr refl)
                (if-Less (code == 0x05) _ _ _ _ (λ d. inr refl)
                  (if-Less (code == 0x06) _ _ _ _ (λ d. inr refl)
                    (if-Less (code == 0x07) _ _ _ _ (λ d. inr refl)
                      (if-Less (code == 0x08) _ _ _ _ (λ d. inr refl)
                        (if-Less (code == 0x09) _ _ _ _ (λ d. inr refl)
                          (if-Less (code == 0x0A) _ _ _ _ (λ d. inr refl)
                            (if-Less (code == 0x0B) _ _ _ _ (λ d. inr refl)
                              (if-Less (code == 0x0C) _ _ _ _ (λ d. inr refl)
                                (if-Less (code == 0x0D) _ _ _ _ (λ d. inr refl)
                                  (if-Less (code == 0x0E) _ _ _ _
                                    (λ d. list-Less (initialize_stream d) d)
                                    (λ d. inr refl)))))))))))))))

  element-Less : (p : MaybePending) → Less (element fp s p) (element fp s' p)
  unfolding element next_value
  element-Less absent d = ⊑_under (next d) _ _ next_value_with_code-Less
  element-Less (present v) d = try_complete_self-Less v d

  with_element-Less :
      (vs : ValueStream) (size : ℕ) (r : ValueState)
      → Less (with_element fp s vs size r) (with_element fp s' vs size r)
  with_element-Less (value_stream n ws p) size (completed v) d = less _ size d
  with_element-Less (value_stream n ws p) size (pending pv) d = inr refl

  continue-Less :
      (vs : ValueStream) (size : ℕ) (p : MaybePending)
      → Less
          (λ d. bind (element fp s p d) (with_element fp s vs size))
          (λ d. bind (element fp s' p d) (with_element fp s' vs size))
  continue-Less vs size p d = ⊑_trans (⊑_bind (with_element fp s vs size) (element-Less p d)) (
      ⊑_under (element fp s' p d) (with_element fp s vs size) (with_element fp s' vs size)
        (with_element-Less vs size))

  round_eof :
      (vs : ValueStream) (size : ℕ) (p : MaybePending) (at_end : Bool)
      → Less
          (λ d. elim at_end [
            | true ↦ done (pending vs) d
            | false ↦ bind (element fp s p d) (with_element fp s vs size)
          ])
          (λ d. elim at_end [
            | true ↦ done (pending vs) d
            | false ↦ bind (element fp s' p d) (with_element fp s' vs size)
          ])
  round_eof vs size p true d = inr refl
  round_eof vs size p false d = continue-Less vs size p d

  stream_round-Less : LessLoop (stream_round fp s) (stream_round fp s')
  unfolding stream_round
  stream_round-Less (value_stream n ws p) size d = elim (Bool-cases (count ws == size)) [
    | inl full ↦ inr (ground arith)
    | inr room ↦
        rw (room, stream_round)
          (⊑_under (eof d) _ _ (λ at_end. round_eof (value_stream n ws p) size p at_end))
  ]

-- One unit of fuel more.
pub stream_loop-Less :
    (fp : FloatParse) (f : ℕ) → LessLoop (stream_loop fp f) (stream_loop fp (suc f))
unfolding stream_loop
stream_loop-Less fp zero vs size d = inl refl
stream_loop-Less fp (suc f) vs size d =
    stream_round-Less fp (stream_loop fp f) (stream_loop fp (suc f)) (stream_loop-Less fp f) vs size
      d
