-- ===== src/Protocol/Wire/Sound/Blocks.antt =====
-- The blocks that `SpObjectState::complete` of src/protocol/mod.rs has read when it completes an object.
use client_rust.Prelude.{
  ℕ, ◌+◌, ◌-◌, ◌≤◌, ◌≡◌, refl, sym, ap, ◌∙◌, ◌⊎◌, inl, inr, true, Bytes, [], ◌∷◌, ◌++◌, length,
  drop, take, arith, lf, leb, Bool-cases, drop-take-prefix, take-append-drop, length-take_le,
  length-drop,
}
use client_rust.Error.{ProtocolError, invalid_server_response_for_data}
use client_rust.Std.{is_utf8}
use client_rust.Protocol.Outcome.{Decoder, done, fail}
use client_rust.Protocol.Cursor.{decoder}
use client_rust.Protocol.Cursor.Laws.{has_left_lem, next_chunk_lem}
use client_rust.Protocol.Extend.{IsValid}
use client_rust.Protocol.Sp.{
  SpObjectState, Finish, finish_binary, finish_string, initialize, take_block, complete,
}
use client_rust.Protocol.Wire.{Digits}
use client_rust.Protocol.Wire.At.{past, past-IsValid}
use client_rust.Protocol.Wire.Sound.{Sent, Sent-bind, Sent-behind}
use client_rust.Protocol.Wire.Sound.Lines.{complete_size-Sent}

-- `finish` takes a block as it is if it satisfies `G`, and fails otherwise.
abbrev pub Tests : Finish → (Bytes → Type 0) → Type 0
Tests finish G =
    (block : Bytes) (d : Decoder)
    → ((finish block d ≡ done block d) × G block)
      ⊎ ((e : ProtocolError) × (finish block d ≡ fail e d))

pub finish_binary-Tests : Tests finish_binary (λ v. Unit)
unfolding finish_binary
finish_binary-Tests block d = inl (refl, tt)

pub finish_string-Tests : Tests finish_string (λ v. is_utf8 v ≡ true)
unfolding finish_string
finish_string-Tests block d = elim (Bool-cases (is_utf8 block)) [
  | inl valid ↦ inl (rw valid refl, valid)
  | inr other ↦ inr (invalid_server_response_for_data, rw other refl)
]

module _ (finish : Finish) (G : Bytes → Type 0) (tests : Tests finish G) where
  abbrev BlockOf : ℕ → SpObjectState → Bytes → Type 0
  BlockOf n y t = (t ≡ y.v) × (length y.v ≡ n) × G y.v

  take_block-Sent :
      (n : ℕ) (self : SpObjectState) (d : Decoder)
      → IsValid d
      → Sent (BlockOf n) d (take_block finish n self d)
  unfolding take_block
  take_block-Sent n self d v = elim (Bool-cases (leb n (length d.b - d.i))) [
    | inl enough ↦
        let block : Bytes = take n (drop d.i d.b) in
        let rest : Bytes = drop n (drop d.i d.b) in
        let size : length block ≡ n =
          length-take_le n (drop d.i d.b) (ground (arith, length-drop d.i d.b)) in
        let parts : drop d.i d.b ≡ block ++ rest = sym (take-append-drop n (drop d.i d.b)) in
        let fits : d.i + n ≤ length d.b = ground arith in
        let chunk : drop d.i (take (d.i + n) d.b) ≡ block =
          ap (λ k. drop d.i (take (d.i + k) d.b)) (sym size)
          ∙ drop-take-prefix d.i d.b block rest parts in
        elim (tests block (decoder d.b (d.i + n))) [
          | inl (taken, good) ↦
              rw (has_left_lem n d v.1, enough, next_chunk_lem n d fits, chunk)
                (rw taken (
                  block,
                  rest,
                  (v, parts),
                  (refl, size, good),
                  ap (λ k. decoder d.b (d.i + k)) (sym size),
                ))
          | inr (e, refused) ↦
              rw (has_left_lem n d v.1, enough, next_chunk_lem n d fits, chunk) (rw refused tt)
        ]
    | inr short ↦ rw (has_left_lem n d v.1, short) tt
  ]

  pub block-Sent :
      (d : Decoder)
      → IsValid d
      → Sent
          (λ y t. (s : Bytes) × (t ≡ (s ++ lf ∷ []) ++ y.v) × Digits 64 s (length y.v) × G y.v)
          d
          (complete finish (initialize d) d)
  unfolding complete initialize
  block-Sent d v =
      Sent-bind _ _ d _ _ (complete_size-Sent d d v)
        (λ n t rest at (s, e, digits).
          Sent-behind (BlockOf n) _ d t rest _ at
            (λ y u (same, size, good).
              (s, ap (λ z. z ++ u) e ∙ ap (λ z. (s ++ lf ∷ []) ++ z) same, rw size digits, good))
            (take_block-Sent n _ (past d t) (past-IsValid d t rest at)))
        (λ p d'. tt)
