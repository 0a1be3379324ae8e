-- ===== src/Coordinator/PortCache.antt =====
-- The cached state of a port after its settings are changed.
use hass_tplink_easy_smart.Base.{
  ℕ, zero, suc, ◌-◌, ◌<◌, ◌≡◌, refl, ap, sym, subst, ◌∙◌, String, Bool, true, Option, none, some,
  List, [], ◌∷◌, arith, ◌==◌, if◌then◌else◌,
}
use hass_tplink_easy_smart.Base.Int.{ℤ, pos, negsuc, ltb_ℤ, eqb_ℤ, ◌-ℤ◌}
use hass_tplink_easy_smart.Base.Lists.{length, get_elem?}
use hass_tplink_easy_smart.Python.{Result, ok, err, index_error}
use hass_tplink_easy_smart.Classes.{PortSpeed, PortState}
use hass_tplink_easy_smart.Core.Session.Monad.{⊤, Session, ◌>>=◌}
use hass_tplink_easy_smart.Api.Features.{ApiState, on_session}
use hass_tplink_easy_smart.Api.Device.{set_port_state}
use hass_tplink_easy_smart.Coordinator.State.{on_api, on_switch, async_update_listeners}
use hass_tplink_easy_smart.Coordinator.Refresh.{Surroundings, State}
use hass_tplink_easy_smart.Coordinator.Commands.{
  item_of, get_port_state, position, modify_at, with_settings, write_port_state,
  async_set_port_state,
}

get_elem?-lt :
    {A : Type 0} (items : List A) (i : ℕ) {a : A} → get_elem? items i ≡ some a → i < length items
get_elem?-lt [] i h = cc
get_elem?-lt (x ∷ items) zero h = omega arith
get_elem?-lt (x ∷ items) (suc i) h = let ih = get_elem?-lt items i h in omega arith

module _ {A : Type 0} (f : A → A) where
  length-modify_at : (items : List A) (i : ℕ) → length (modify_at f items i) ≡ length items
  unfolding modify_at
  length-modify_at [] i = refl
  length-modify_at (x ∷ items) zero = refl
  length-modify_at (x ∷ items) (suc i) = ap suc (length-modify_at items i)

  get_elem?-modify_at :
      (items : List A) (i j : ℕ) {a : A}
      → get_elem? items i ≡ some a
      → get_elem? (modify_at f items i) j ≡ (if i == j then some (f a) else get_elem? items j)
  unfolding modify_at
  get_elem?-modify_at [] i j h = cc
  get_elem?-modify_at (x ∷ items) zero zero h = ground arith
  get_elem?-modify_at (x ∷ items) zero (suc j) h = ground arith
  get_elem?-modify_at (x ∷ items) (suc i) zero h = ground arith
  get_elem?-modify_at (x ∷ items) (suc i) (suc j) h =
      let ih = get_elem?-modify_at items i j h in ground arith

  item_of-modify_at :
      (items : List A) (i : ℕ) (other : ℤ) {a : A}
      → get_elem? items i ≡ some a
      → item_of (modify_at f items i) other
        ≡ (if eqb_ℤ other (pos (suc i)) then some (f a) else item_of items other)
  unfolding item_of
  item_of-modify_at items i (negsuc k) {a} h = ground (arith, length-modify_at items i)
  item_of-modify_at items i (pos zero) {a} h = ground (arith, length-modify_at items i)
  item_of-modify_at items i (pos (suc j)) {a} h =
      let at = get_elem?-modify_at items i j h in
      let off : suc j - 1 ≡ j = omega arith in
      let inside = get_elem?-lt items i h in
      let same = length-modify_at items i in rw off (ground arith)

item_of-get_elem? :
    {A : Type 0} (items : List A) (i : ℕ) {a : A}
    → item_of items (pos (suc i)) ≡ some a
    → get_elem? items i ≡ some a
unfolding item_of
item_of-get_elem? items i {a} h =
    let off : suc i - 1 ≡ i = omega arith in let at = ap (get_elem? items) off in ground arith

write_port_state-eq :
    (w : Surroundings) (n : ℕ) (enabled : Bool) (speed : PortSpeed) (flow_control : Bool)
    (s : State w)
    → n < length s.port_states
    → write_port_state w (pos (suc n) -ℤ pos 1) enabled speed flow_control s
      ≡ async_update_listeners (record s {
        port_states = modify_at (with_settings enabled speed flow_control) s.port_states n;
      })
unfolding write_port_state position ◌-ℤ◌
write_port_state-eq w n enabled speed flow_control s inside =
    let first : pos (suc n) -ℤ pos 1 ≡ pos n = ground arith in
    let count = length s.port_states in
    let below : ltb_ℤ (pos n) (pos count) ≡ true = ground arith in
    let found : position (pos n) count ≡ some n = ground arith in
    let act : Option ℕ → Result ⊤ × State w = λ at. elim at [
      | none ↦ (err index_error, s)
      | some i ↦ async_update_listeners (record s {
        port_states = modify_at (with_settings enabled speed flow_control) s.port_states i;
      })
    ] in
    ap (λ i. write_port_state w i enabled speed flow_control s) first
    ∙ ap (λ b. if b then act (position (pos n) count) else (ok tt, s)) below
    ∙ ap act found

write_port_state-cached :
    (w : Surroundings) (n : ℕ) (enabled : Bool) (speed : PortSpeed) (flow_control : Bool)
    (s : State w) {port : PortState}
    → get_port_state (pos (suc n)) s ≡ some port
    → let (r, t) = write_port_state w (pos (suc n) -ℤ pos 1) enabled speed flow_control s in
      (r ≡ ok tt)
      × ((other : ℤ)
          → get_port_state other t ≡ (
              if eqb_ℤ other (pos (suc n))
              then some (with_settings enabled speed flow_control port)
              else get_port_state other s))
      × (t.listener_updates ≡ suc s.listener_updates)
      × (t.api ≡ s.api)
unfolding get_port_state async_update_listeners
write_port_state-cached w n enabled speed flow_control s {port} h =
    let at = item_of-get_elem? s.port_states n h in
    let inside = get_elem?-lt s.port_states n at in
    let same = write_port_state-eq w n enabled speed flow_control s inside in
    (
      ap (λ (out : Result ⊤ × State w). out.0) same,
      λ other.
          ap (λ (out : Result ⊤ × State w). item_of out.1.port_states other) same
          ∙ item_of-modify_at (with_settings enabled speed flow_control) s.port_states n other at,
      ap (λ (out : Result ⊤ × State w). out.1.listener_updates) same,
      ap (λ (out : Result ⊤ × State w). out.1.api) same,
    )

item_of-suc :
    {A : Type 0} (items : List A) (number : ℤ) {a : A}
    → item_of items number ≡ some a
    → (n : ℕ) × (number ≡ pos (suc n))
unfolding item_of
item_of-suc items (pos (suc n)) h = (n, refl)
item_of-suc items (pos zero) h = absurd (ground arith)
item_of-suc items (negsuc n) h = absurd (ground arith)

module _ (w : Surroundings) (number : ℤ) (enabled : Bool) (speed : PortSpeed)
    (flow_control : Bool) where
  -- The settings of a port are cached.
  pub record IsCached (port : PortState) (s t : State w) : Type 0 where
    pub ports :
        (other : ℤ)
        → get_port_state other t ≡ (
            if eqb_ℤ other number
            then some (with_settings enabled speed flow_control port)
            else get_port_state other s)
    pub told : t.listener_updates ≡ suc s.listener_updates

  -- The outcome, by the answer of the switch.
  abbrev pub Outcome : PortState → State w → Result (Option String) → Result ⊤ × State w → Type 0
  Outcome port s (ok text) (r, t) = (r ≡ ok tt) × IsCached port s t
  Outcome port s (err e) (r, t) =
      (r ≡ err e) × (t.port_states ≡ s.port_states) × (t.listener_updates ≡ s.listener_updates)

  answered :
      (s : State w) (port : PortState) (answer : Result (Option String)) (session : Session)
      → get_port_state number s ≡ some port
      → let t : State w = record s { api = record s.api { session = session } } in
        let out : Result ⊤ × State w = elim answer [
          | ok text ↦ write_port_state w (number -ℤ pos 1) enabled speed flow_control t
          | err e ↦ (err e, t)
        ] in
        Outcome port s answer out × (out.1.api.session ≡ session)
  unfolding get_port_state
  answered s port (ok text) session h =
      let t : State w = record s { api = record s.api { session = session } } in
      let (n, is_suc) = item_of-suc s.port_states number h in
      let facts =
        subst
          (λ m.
            get_port_state m t ≡ some port
            → let out = write_port_state w (m -ℤ pos 1) enabled speed flow_control t in
              (out.0 ≡ ok tt)
              × ((other : ℤ)
                  → get_port_state other out.1 ≡ (
                      if eqb_ℤ other m
                      then some (with_settings enabled speed flow_control port)
                      else get_port_state other t))
              × (out.1.listener_updates ≡ suc t.listener_updates)
              × (out.1.api ≡ t.api))
          (sym is_suc) (write_port_state-cached w n enabled speed flow_control t) h in
      (
        (facts.0, record { ports = facts.1; told = facts.2 }),
        ap (λ (a : ApiState). a.session) facts.3,
      )
  answered s port (err e) session h = ((refl, refl, refl), refl)

  -- If the port is known and the switch takes the settings, they are cached: the port has the new
  -- ones, every other port is as it was, and the listeners are told once. If the request raises, so
  -- does the method, and neither the cached ports nor the listeners notice. Nothing else is sent.
  pub async_set_port_state-Outcome :
      (s : State w) {port : PortState}
      → get_port_state number s ≡ some port
      → let (answer, session) =
          set_port_state w.client number enabled speed flow_control s.api.session in
        let out = async_set_port_state w number enabled speed flow_control s in
        Outcome port s answer out × (out.1.api.session ≡ session)
  unfolding async_set_port_state ◌>>=◌ on_switch on_api on_session
  async_set_port_state-Outcome s {port} h =
      let (answer, session) =
        set_port_state w.client number enabled speed flow_control s.api.session in
      answered s port answer session h
