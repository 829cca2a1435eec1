-- ===== src/Protocol/Value/Dispatch.antt =====
-- The dispatch of `PendingValue` in src/protocol/mod.rs, by code and by state, on a buffer that is extended.
use client_rust.Prelude.{
  ℕ, ◌+◌, ◌≡◌, refl, Bytes, Bool, true, false, ◌==◌, inr, if◌then◌else◌, arith,
}
use client_rust.Std.{FloatParse, pos, parse_signed}
use client_rust.Response.{Value}
use client_rust.Protocol.Outcome.{Decoder, Method}
use client_rust.Protocol.Extend.{extend, IsValid, Follows, Advances-refl}
use client_rust.Protocol.Extend.Follow.{Follows-convert}
use client_rust.Protocol.Lfs
use client_rust.Protocol.Lfs.{
  LfsValue, LfsObject, unsigned, signed, parsed, float32_object, float64_object,
}
use client_rust.Protocol.Lfs.Objects.{AlwaysReady, HasBegun, unsigned-IsLocal, parsed-IsLocal}
use client_rust.Protocol.Lfs.Resume
use client_rust.Protocol.Lfs.Resume.{IsLocal}
use client_rust.Protocol.Sp
use client_rust.Protocol.Sp.{SpObjectState, Finish, finish_binary, finish_string}
use client_rust.Protocol.Sp.Resume as SpResume
use client_rust.Protocol.Sp.Resume.{
  SpReady, FinishIsLocal, finish_binary-FinishIsLocal, finish_string-FinishIsLocal,
}
use client_rust.Protocol.Value.{
  PendingValue, ValueStream, ValueState, bool, uint8, uint16, uint32, uint64, sint8, sint16, sint32,
  sint64, float32, float64, binary, string, list, items, StreamLoop, complete_value,
  initialize_stream, complete_stream, try_complete_self, next_value_with_code,
}
use client_rust.Protocol.Value.Depth.{depth, depth_stream}
use client_rust.Protocol.Value.Ready.{PendingReady, StreamReady}
use client_rust.Protocol.Value.Resume.{
  StreamFollows, IsDown, left, Resumes, decode_bool-Resumes, complete_stream-Follows,
}

module _ (X : Type 0) (G : ℕ → Type 0) (down : IsDown G) (fp : FloatParse) (stream : StreamLoop)
    (more : Bytes) (local : StreamFollows X G more stream) where
  -- A number whose pending state is converted into a pending value.
  lfs-Follows :
      {T S : Type 0} (o : LfsObject T S) (IsReady : LfsValue T S → ℕ → Type 0)
      → IsLocal o IsReady
      → (into : LfsValue T S → Value) (back : LfsValue T S → PendingValue)
      → ((x : LfsValue T S) (i : ℕ) → IsReady x i → PendingReady (back x) i)
      → ((x : LfsValue T S) (d : Decoder)
          → complete_value (Lfs.complete o) into back x d ≡ try_complete_self fp stream (back x) d)
      → (x : LfsValue T S) (d : Decoder) → IsValid d
      → IsReady x d.i
      → Follows X PendingReady
          (try_complete_self fp stream)
          more
          d
          (complete_value (Lfs.complete o) into back x (extend d more))
          (complete_value (Lfs.complete o) into back x d)
  unfolding complete_value
  lfs-Follows o IsReady lo into back ready same x d v r =
      Follows-convert X IsReady (Lfs.complete o) PendingReady (try_complete_self fp stream) more
        into back d (Lfs.complete o x (extend d more)) (Lfs.complete o x d) ready same
        (Resume.complete-Follows X o IsReady lo more x d v r)

  sp-Follows :
      (finish : Finish)
      → FinishIsLocal finish
      → (into : SpObjectState → Value) (back : SpObjectState → PendingValue)
      → ((x : SpObjectState) (i : ℕ) → PendingReady (back x) i)
      → ((x : SpObjectState) (d : Decoder)
          → complete_value (Sp.complete finish) into back x d
            ≡ try_complete_self fp stream (back x) d)
      → (x : SpObjectState) (d : Decoder) → IsValid d
      → Follows X PendingReady
          (try_complete_self fp stream)
          more
          d
          (complete_value (Sp.complete finish) into back x (extend d more))
          (complete_value (Sp.complete finish) into back x d)
  unfolding complete_value
  sp-Follows finish lo into back ready same x d v =
      Follows-convert X SpReady (Sp.complete finish) PendingReady (try_complete_self fp stream) more
        into back d (Sp.complete finish x (extend d more)) (Sp.complete finish x d)
        (λ x i _. ready x i) same (SpResume.complete-Follows X finish lo more x d v)

  list-Follows :
      (vs : ValueStream) (d : Decoder)
      → IsValid d
      → StreamReady vs d.i
      → G (left d + depth_stream vs)
      → Follows X PendingReady
          (try_complete_self fp stream)
          more
          d
          (complete_value
            (complete_stream stream)
            (λ x. Value.list (items x))
            list
            vs
            (extend d more))
          (complete_value (complete_stream stream) (λ x. Value.list (items x)) list vs d)
  unfolding complete_value
  list-Follows vs d v r x =
      Follows-convert X StreamReady (complete_stream stream) PendingReady
        (try_complete_self fp stream) more (λ x. Value.list (items x)) list d
        (complete_stream stream vs (extend d more)) (complete_stream stream vs d) (λ pv i q. q)
        (λ pv d'. unfold try_complete_self complete_value in refl)
        (complete_stream-Follows X G down fp stream more local vs d v r x)

  -- From a pending state.
  pub try_complete_self-Follows :
      (pv : PendingValue) (d : Decoder)
      → IsValid d
      → PendingReady pv d.i
      → G (left d + depth pv)
      → Follows X PendingReady
          (try_complete_self fp stream)
          more
          d
          (try_complete_self fp stream pv (extend d more))
          (try_complete_self fp stream pv d)
  unfolding try_complete_self
  try_complete_self-Follows (bool b) d v r x =
      decode_bool-Resumes X G down fp stream more local d v (down _ _ (omega arith) x)
  try_complete_self-Follows (uint8 pv) d v r x =
      lfs-Follows (unsigned 8) AlwaysReady (unsigned-IsLocal 8) (λ x. Value.uint8 x.v) uint8
        (λ x i r. r) (λ pv d'. unfold try_complete_self in refl) pv d v r
  try_complete_self-Follows (uint16 pv) d v r x =
      lfs-Follows (unsigned 16) AlwaysReady (unsigned-IsLocal 16) (λ x. Value.uint16 x.v) uint16
        (λ x i r. r) (λ pv d'. unfold try_complete_self in refl) pv d v r
  try_complete_self-Follows (uint32 pv) d v r x =
      lfs-Follows (unsigned 32) AlwaysReady (unsigned-IsLocal 32) (λ x. Value.uint32 x.v) uint32
        (λ x i r. r) (λ pv d'. unfold try_complete_self in refl) pv d v r
  try_complete_self-Follows (uint64 pv) d v r x =
      lfs-Follows (unsigned 64) AlwaysReady (unsigned-IsLocal 64) (λ x. Value.uint64 x.v) uint64
        (λ x i r. r) (λ pv d'. unfold try_complete_self in refl) pv d v r
  try_complete_self-Follows (sint8 pv) d v r x =
      lfs-Follows (signed 8) HasBegun (parsed-IsLocal (parse_signed 8) (pos 0))
        (λ x. Value.sint8 x.v) sint8 (λ x i r. r) (λ pv d'. unfold try_complete_self in refl) pv d v
        r
  try_complete_self-Follows (sint16 pv) d v r x =
      lfs-Follows (signed 16) HasBegun (parsed-IsLocal (parse_signed 16) (pos 0))
        (λ x. Value.sint16 x.v) sint16 (λ x i r. r) (λ pv d'. unfold try_complete_self in refl) pv d
        v r
  try_complete_self-Follows (sint32 pv) d v r x =
      lfs-Follows (signed 32) HasBegun (parsed-IsLocal (parse_signed 32) (pos 0))
        (λ x. Value.sint32 x.v) sint32 (λ x i r. r) (λ pv d'. unfold try_complete_self in refl) pv d
        v r
  try_complete_self-Follows (sint64 pv) d v r x =
      lfs-Follows (signed 64) HasBegun (parsed-IsLocal (parse_signed 64) (pos 0))
        (λ x. Value.sint64 x.v) sint64 (λ x i r. r) (λ pv d'. unfold try_complete_self in refl) pv d
        v r
  try_complete_self-Follows (float32 pv) d v r x =
      lfs-Follows (float32_object fp) HasBegun (parsed-IsLocal fp.parse_f32 0)
        (λ x. Value.float32 x.v) float32 (λ x i r. r) (λ pv d'. unfold try_complete_self in refl) pv
        d v r
  try_complete_self-Follows (float64 pv) d v r x =
      lfs-Follows (float64_object fp) HasBegun (parsed-IsLocal fp.parse_f64 0)
        (λ x. Value.float64 x.v) float64 (λ x i r. r) (λ pv d'. unfold try_complete_self in refl) pv
        d v r
  try_complete_self-Follows (binary pv) d v r x =
      sp-Follows finish_binary finish_binary-FinishIsLocal (λ x. Value.binary x.v) binary
        (λ x i. tt) (λ pv d'. unfold try_complete_self in refl) pv d v
  try_complete_self-Follows (string pv) d v r x =
      sp-Follows finish_string finish_string-FinishIsLocal (λ x. Value.string x.v) string
        (λ x i. tt) (λ pv d'. unfold try_complete_self in refl) pv d v
  try_complete_self-Follows (list vs) d v r x = list-Follows vs d v r (down _ _ (omega arith) x)

  if-Resumes :
      (b : Bool) (m n : Method ValueState)
      → Resumes X G down fp stream more local m
      → Resumes X G down fp stream more local n
      → Resumes X G down fp stream more local (if b then m else n)
  if-Resumes true m n hm hn = hm
  if-Resumes false m n hm hn = hn

  -- From the state that a value begins in.
  begins :
      (pv : PendingValue) (d : Decoder)
      → IsValid d
      → PendingReady pv d.i
      → depth pv ≡ 0
      → G (left d)
      → Follows X PendingReady
          (try_complete_self fp stream)
          more
          d
          (try_complete_self fp stream pv (extend d more))
          (try_complete_self fp stream pv d)
  begins pv d v r e x = try_complete_self-Follows pv d v r (down _ _ (omega (arith, e)) x)

  -- From the code of a value.
  pub next_value_with_code-Follows :
      (code : ℕ) → Resumes X G down fp stream more local (next_value_with_code fp stream code)
  unfolding next_value_with_code try_complete_self Lfs.initialize Sp.initialize initialize_stream
  next_value_with_code-Follows code =
      if-Resumes (code == 0x00) _ _ (λ d v x. (Advances-refl d v.1, inr refl))
        (if-Resumes (code == 0x01) _ _ (decode_bool-Resumes X G down fp stream more local) (
          if-Resumes (code == 0x02) _ _
            (λ d v x. begins (uint8 (Lfs.initialize (unsigned 8) d)) d v tt refl x)
            (if-Resumes (code == 0x03) _ _
              (λ d v x. begins (uint16 (Lfs.initialize (unsigned 16) d)) d v tt refl x)
              (if-Resumes (code == 0x04) _ _
                (λ d v x. begins (uint32 (Lfs.initialize (unsigned 32) d)) d v tt refl x)
                (if-Resumes (code == 0x05) _ _
                  (λ d v x. begins (uint64 (Lfs.initialize (unsigned 64) d)) d v tt refl x)
                  (if-Resumes (code == 0x06) _ _
                    (λ d v x. begins (sint8 (Lfs.initialize (signed 8) d)) d v (omega arith) refl x)
                    (if-Resumes (code == 0x07) _ _
                      (λ d v x.
                        begins (sint16 (Lfs.initialize (signed 16) d)) d v (omega arith) refl x)
                      (if-Resumes (code == 0x08) _ _
                        (λ d v x.
                          begins (sint32 (Lfs.initialize (signed 32) d)) d v (omega arith) refl x)
                        (if-Resumes (code == 0x09) _ _
                          (λ d v x.
                            begins (sint64 (Lfs.initialize (signed 64) d)) d v (omega arith) refl x)
                          (if-Resumes (code == 0x0A) _ _
                            (λ d v x.
                              begins (float32 (Lfs.initialize (float32_object fp) d)) d v
                                (omega arith) refl x)
                            (if-Resumes (code == 0x0B) _ _
                              (λ d v x.
                                begins (float64 (Lfs.initialize (float64_object fp) d)) d v
                                  (omega arith) refl x)
                              (if-Resumes (code == 0x0C) _ _
                                (λ d v x. begins (binary (Sp.initialize d)) d v tt refl x)
                                (if-Resumes (code == 0x0D) _ _
                                  (λ d v x. begins (string (Sp.initialize d)) d v tt refl x)
                                  (if-Resumes (code == 0x0E) _ _
                                    (λ d v x.
                                      list-Follows (initialize_stream d) d v tt
                                        (down _ _ (omega arith) x))
                                    (λ d v x. inr refl)))))))))))))))
