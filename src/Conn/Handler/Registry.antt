-- ===== src/Conn/Handler/Registry.antt =====
-- What a registration does to the messages of each type.
use udp_stuff.Base.{
  ℕ, ◌≡◌, inl, inr, refl, arith, ◌∙◌, subst, Bool, true, List, Bytes, none, some, find, emplace,
  find-emplace, ltb, ◌==◌, if◌then◌else◌, Outcome, done, throws, runtime_error, protocol_error,
  ◌>>=◌, Bool-cases,
}
use udp_stuff.Conn.Handler.{
  PeerId512, GlobalChannelHandler, register_global_handler, global_handle_data,
}

-- The call of a handler, under its limit.
abbrev pub guarded :
    {S : Type 0} → GlobalChannelHandler S → PeerId512 → Bytes → ℕ → S → Outcome (Bool × S)
guarded h src_id data_ size s =
    if ltb h.max_data_size size
    then throws (protocol_error size h.max_data_size)
    else (h.on_data src_id data_ size s >>= λ t. done (true, t))

-- If no handler of a type is registered yet, a registration succeeds; after it messages of that type go to the
-- new handler, under its size limit, messages of every other type are treated as before, and another
-- registration of the type throws `runtime_error`.
pub register_lem :
    {S : Type 0} (handlers : List (ℕ × GlobalChannelHandler S)) (type : ℕ)
    (h : GlobalChannelHandler S)
    → find type handlers ≡ none
    → (after : List (ℕ × GlobalChannelHandler S)) × (register_global_handler handlers type h
        ≡ done after)
      × ((j : ℕ) (src_id : PeerId512) (data_ : Bytes) (size : ℕ) (s : S)
          → global_handle_data after src_id j data_ size s ≡ (
              if type == j
              then guarded h src_id data_ size s
              else global_handle_data handlers src_id j data_ size s))
      × ((again : GlobalChannelHandler S)
          → register_global_handler after type again ≡ throws runtime_error)
unfolding register_global_handler global_handle_data
register_lem handlers type h new =
    let own : (type == type) ≡ true = ground arith in
    let there : find type (emplace type h handlers) ≡ some h =
      find-emplace type type h handlers ∙ rw (own, new) refl in
    (
      emplace type h handlers,
      rw (register_global_handler, new) refl,
      (λ j src_id data_ size s. elim (Bool-cases (type == j)) [
        | inl e ↦
            let same : type ≡ j = ground arith in
            let here : find j (emplace type h handlers) ≡ some h =
              subst (λ k. find k (emplace type h handlers) ≡ some h) same there in
            rw (global_handle_data, here, e) refl
        | inr e ↦ rw (global_handle_data, find-emplace type j h handlers, e) refl
      ]),
      λ again. rw (register_global_handler, there) refl,
    )
