-- ===== src/Protocol/Value/Depth.antt =====
-- The measure of a partly received value: a model of no code, for the fuel of the loops.
use client_rust.Prelude.{ℕ, suc}
use client_rust.Protocol.Value.{
  PendingValue, ValueStream, MaybePending, value_stream, absent, present, list,
}

-- How deep the lists nest in which a pending value lies.
abbrev mutual
  pub depth : PendingValue → ℕ
  depth (list vs) = suc (depth_stream vs)
  depth _ = 0

  pub depth_stream : ValueStream → ℕ
  depth_stream (value_stream n vs p) = depth_maybe p

  pub depth_maybe : MaybePending → ℕ
  depth_maybe absent = 0
  depth_maybe (present v) = suc (depth v)
