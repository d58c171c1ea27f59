-- ===== src/Conn/Handler.antt =====
-- conn/handler.h, conn/handler.cc and conn/proto.h: the handlers of messages, by type.
pub mod Registry
use udp_stuff.Base.{
  ℕ, zero, suc, ◌+◌, ◌*◌, ◌/◌, ◌%◌, ◌^◌, Bool, true, false, List, [], ◌∷◌, ◌++◌, Bytes, length,
  Option, none, some, find, emplace, ltb, ◌==◌, if◌then◌else◌, Outcome, done, throws, fault, hangs,
  runtime_error, protocol_error, ◌>>=◌,
}

pub record MessageHeader : Type 0 where
  pub size : ℕ
  pub type : ℕ

-- An id is its eight words.
abbrev pub PeerId512 : Type 0
PeerId512 = List ℕ

-- The callbacks change the state of the application, `S`, and may throw. `arg` is bound to them.
pub record GlobalChannelHandler (S : Type 0) : Type 0 where
  pub max_data_size : ℕ
  pub on_data : PeerId512 → Bytes → ℕ → S → Outcome S

pub record PeerChannelHandler (S : Type 0) : Type 0 where
  pub max_data_size : ℕ
  pub on_data : Bytes → ℕ → S → Outcome S

module _ {S : Type 0} where
  -- The registry, after the call.
  unfoldable pub register_global_handler :
      List (ℕ × GlobalChannelHandler S)
      → ℕ
      → GlobalChannelHandler S
      → Outcome (List (ℕ × GlobalChannelHandler S))
  unfolding find emplace
  register_global_handler handlers type handler = elim (find type handlers) [
    | none ↦ done (emplace type handler handlers)
    | some h ↦ throws runtime_error
  ]

  -- The result, with the state of the application.
  unfoldable pub global_handle_data :
      List (ℕ × GlobalChannelHandler S) → PeerId512 → ℕ → Bytes → ℕ → S → Outcome (Bool × S)
  unfolding find
  global_handle_data handlers src_id type data_ size s = elim (find type handlers) [
    | none ↦ done (false, s)
    | some h ↦
        if ltb h.max_data_size size
        then throws (protocol_error size h.max_data_size)
        else (h.on_data src_id data_ size s >>= λ t. done (true, t))
  ]
