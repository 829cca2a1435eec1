-- ===== src/Protocol/Value/Ready.antt =====
-- The pending values that the decoder makes: what has begun to be parsed begins within the buffer.
use client_rust.Prelude.{ℕ, ◌≤◌, ◌≡◌, arith}
use client_rust.Protocol.Lfs.Objects.{HasBegun}
use client_rust.Protocol.Sp.{SizeState}
use client_rust.Protocol.Value.{
  PendingValue, ValueStream, MaybePending, value_stream, absent, present, sint8, sint16, sint32,
  sint64, float32, float64, list,
}

abbrev mutual
  pub PendingReady : PendingValue → ℕ → Type 0
  PendingReady (sint8 x) i = HasBegun x i
  PendingReady (sint16 x) i = HasBegun x i
  PendingReady (sint32 x) i = HasBegun x i
  PendingReady (sint64 x) i = HasBegun x i
  PendingReady (float32 x) i = HasBegun x i
  PendingReady (float64 x) i = HasBegun x i
  PendingReady (list vs) i = StreamReady vs i
  PendingReady _ i = Unit

  pub StreamReady : ValueStream → ℕ → Type 0
  StreamReady (value_stream n vs p) i = MaybeReady p i

  pub MaybeReady : MaybePending → ℕ → Type 0
  MaybeReady absent i = Unit
  MaybeReady (present v) i = PendingReady v i

-- Readiness is kept as the position grows.
mutual
  pub PendingReady-later :
      (v : PendingValue) (i j : ℕ) → i ≤ j → PendingReady v i → PendingReady v j
  PendingReady-later (sint8 x) i j h r = omega arith
  PendingReady-later (sint16 x) i j h r = omega arith
  PendingReady-later (sint32 x) i j h r = omega arith
  PendingReady-later (sint64 x) i j h r = omega arith
  PendingReady-later (float32 x) i j h r = omega arith
  PendingReady-later (float64 x) i j h r = omega arith
  PendingReady-later (list vs) i j h r = StreamReady-later vs i j h r
  PendingReady-later _ i j h r = tt

  pub StreamReady-later : (vs : ValueStream) (i j : ℕ) → i ≤ j → StreamReady vs i → StreamReady vs j
  StreamReady-later (value_stream n vs p) i j h r = MaybeReady-later p i j h r

  pub MaybeReady-later : (p : MaybePending) (i j : ℕ) → i ≤ j → MaybeReady p i → MaybeReady p j
  MaybeReady-later absent i j h r = tt
  MaybeReady-later (present v) i j h r = PendingReady-later v i j h r

-- The field `element_count`.
abbrev pub element_count : ValueStream → SizeState
element_count (value_stream n vs p) = n

-- A ready stream of a given element count.
abbrev pub CountReady : SizeState → ValueStream → ℕ → Type 0
CountReady n vs i = StreamReady vs i × (element_count vs ≡ n)
