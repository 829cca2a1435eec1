-- ===== src/Query.antt =====
-- src/query.rs and the macro `pushlen!` of src/macros.rs: queries, their parameters, and pipelines.
pub mod Wire
pub mod Packet
pub mod Pipelines
pub mod Params
pub mod Read
use client_rust.Prelude.{
  ℕ, ◌+◌, ◌-◌, Bytes, Bool, true, false, List, [], ◌∷◌, ◌++◌, length, take, lf, if◌then◌else◌,
}
use client_rust.Std.{ℤ}
use client_rust.Itoa.{Itoa}

-- `struct Query`.
pub record Query : Type 0 where
  pub buf : Bytes
  pub param_cnt : ℕ
  pub q_window : ℕ

-- `Query::new`, `Query::new_string` and `Query::_new`.
unfoldable pub new : Bytes → Query
new query = record { buf = query; param_cnt = 0; q_window = length query }

-- `Query::query_str`: the slice `buf[..q_window]`.
unfoldable pub query_str : Query → Bytes
query_str q = take q.q_window q.buf

-- A float of each width, by its bit pattern.
pub data Float : Type 0 where
  f32 : ℕ → Float
  f64 : ℕ → Float

-- The types that implement `SQParam`: `Option`, `Null`, `bool`, the integers, the floats,
-- byte strings, texts and `QList`; `fields` is what `#[derive(Query)]` makes of a structure.
mutual
  pub data SqParam : Type 0 where
    none : SqParam
    some : SqParam → SqParam
    null : SqParam
    bool : Bool → SqParam
    uint : ℕ → SqParam
    sint : ℤ → SqParam
    float : Float → SqParam
    bin : Bytes → SqParam
    str : Bytes → SqParam
    q_list : SqParams → SqParam
    fields : SqParams → SqParam

  pub data SqParams : Type 0 where
    nil : SqParams
    cons : SqParam → SqParams → SqParams

abbrev pub list_sym_open : ℕ
list_sym_open = 0x07

abbrev pub list_sym_close : ℕ
list_sym_close = b']'

abbrev pub as_u8 : Bool → ℕ
as_u8 b = if b then 1 else 0

-- `f32::to_string` and `f64::to_string`.
abbrev pub FloatText : Type 0
FloatText = Float → Bytes

module _ (itoa : Itoa) where
  -- `pushlen!`.
  unfoldable pub pushlen : Bytes → ℕ → Bytes
  pushlen buf len = (buf ++ itoa.format len) ++ lf ∷ []

  module _ (float_text : FloatText) where
    -- `SQParam::append_param`: the buffer that it leaves, and the number of parameters that it appended.
    unfoldable mutual
      pub append_param : SqParam → Bytes → Bytes × ℕ
      append_param none buf = (buf ++ 0 ∷ [], 1)
      append_param (some e) buf = append_param e buf
      append_param null buf = (buf ++ 0 ∷ [], 1)
      append_param (bool b) buf = (buf ++ 1 ∷ as_u8 b ∷ [], 1)
      append_param (uint n) buf = (((buf ++ 2 ∷ []) ++ itoa.format n) ++ lf ∷ [], 1)
      append_param (sint z) buf = (((buf ++ 3 ∷ []) ++ itoa.format_signed z) ++ lf ∷ [], 1)
      append_param (float x) buf = (((buf ++ 4 ∷ []) ++ float_text x) ++ lf ∷ [], 1)
      append_param (bin s) buf = (pushlen (buf ++ 5 ∷ []) (length s) ++ s, 1)
      append_param (str s) buf = (pushlen (buf ++ 6 ∷ []) (length s) ++ s, 1)
      append_param (q_list l) buf =
          ((append_items l (buf ++ list_sym_open ∷ [])) ++ list_sym_close ∷ [], 1)
      append_param (fields l) buf = append_fields l buf 0

      -- The loop of `QList::append_param`, which drops the counts.
      pub append_items : SqParams → Bytes → Bytes
      append_items nil buf = buf
      append_items (cons p ps) buf = append_items ps ((append_param p buf).0)

      -- The statements `size += append_param(&self.field, q)` of a derived implementation.
      pub append_fields : SqParams → Bytes → ℕ → Bytes × ℕ
      append_fields nil buf size = (buf, size)
      append_fields (cons p ps) buf size =
          append_fields ps ((append_param p buf).0) (size + (append_param p buf).1)

    -- `Query::push_param`.
    unfoldable pub push_param : SqParam → Query → Query
    push_param p q =
        let (buf', n) = append_param p q.buf in record q { buf = buf'; param_cnt = q.param_cnt + n }

    -- The macro `query!`: one `push_param` for each argument.
    unfoldable pub push_params : List SqParam → Query → Query
    push_params [] q = q
    push_params (p ∷ ps) q = push_params ps (push_param p q)

    unfoldable pub query : Bytes → List SqParam → Query
    query text params = push_params params (new text)

  -- `Query::write_packet`: the bytes that it writes.
  unfoldable pub write_packet : Query → Bytes
  write_packet q =
      let query_window_str = itoa.format q.q_window in
      let total_packet_size = length query_window_str + 1 + length q.buf in
      b'S' ∷ (itoa.format total_packet_size ++ lf ∷ (query_window_str ++ lf ∷ q.buf))

-- `struct Pipeline`.
pub record Pipeline : Type 0 where
  pub cnt : ℕ
  pub buf : Bytes

-- `Pipeline::new`.
abbrev pub empty : Pipeline
empty = record { cnt = 0; buf = [] }

module _ (itoa : Itoa) where
  -- `Pipeline::push`, `push_owned` and `add`.
  unfoldable pub push : Query → Pipeline → Pipeline
  push q p = record {
    cnt = p.cnt + 1;
    buf =
        (((((p.buf ++ itoa.format q.q_window) ++ lf ∷ [])
              ++ itoa.format (length q.buf - q.q_window))
            ++ lf ∷ [])
          ++ q.buf);
  }

  -- `Extend::extend`; from the empty pipeline, `from_iter` and the macro `pipe!`.
  unfoldable pub extend : List Query → Pipeline → Pipeline
  extend [] p = p
  extend (q ∷ qs) p = extend qs (push q p)
