-- ===== src/Coordinator/Priorities.antt =====
-- The cached QoS priorities after `async_set_qos_priority`.
use hass_tplink_easy_smart.Base.{
  ℕ, zero, suc, ◌+◌, ◌-◌, ◌<◌, ◌≤◌, ◌≡◌, ◌≢◌, refl, subst, ap, sym, ◌∙◌, ◌⊎◌, inl, inr, Bool, true,
  false, ◌&&◌, ◌||◌, some, List, [], ◌∷◌, arith, Bool-cases, ◌==◌, if◌then◌else◌,
}
use hass_tplink_easy_smart.Base.Int.{ℤ, pos, negsuc, eqb_ℤ, leb_ℤ, ◌≤ℤ◌}
use hass_tplink_easy_smart.Base.Lists.{
  length, get_or, get_elem?, set, All, length-set, get_elem?-set_self, get_elem?-set_ne,
}
use hass_tplink_easy_smart.Base.Order.{contains, nat_ord}
use hass_tplink_easy_smart.Python.{Result, ok, err, index}
use hass_tplink_easy_smart.Core.Session.Monad.{⊤}
use hass_tplink_easy_smart.Classes.{QosState}
use hass_tplink_easy_smart.Ports.Mask.Laws.{InRange}
use hass_tplink_easy_smart.Ports.Trunk.{ports_for_trunk, group_of}
use hass_tplink_easy_smart.Ports.Trunk.Affected.{IsWholeLag, ports_for_trunk-IsWholeLag}
use hass_tplink_easy_smart.Coordinator.Commands.{
  is_affected, write_priority, write_priorities, prioritized,
}

-- Whether the loop from index `i` on writes at `j`.
abbrev marked : ℤ → ℤ → ℕ → List ℤ → ℕ → Bool
marked port group i [] j = false
marked port group i (g ∷ groups) j =
    (i == j && is_affected port group i g) || marked port group (suc i) groups j

module _ (port group priority : ℤ) where
  marked_later : (i j : ℕ) (groups : List ℤ) → j < i → marked port group i groups j ≡ false
  marked_later i j [] h = refl
  marked_later i j (g ∷ groups) h =
      let later = marked_later (suc i) j groups (omega arith) in ground arith

  written : Bool → ℕ → List ℤ → List ℤ
  written b i priorities = if b then set priorities i priority else priorities

  write_priority-written :
      (b : Bool) (i : ℕ) (priorities : List ℤ)
      → i < length priorities
      → write_priority b priority i priorities ≡ (ok tt, written b i priorities)
  unfolding write_priority written
  write_priority-written true i priorities h = ground arith
  write_priority-written false i priorities h = refl

  length-written :
      (b : Bool) (i : ℕ) (priorities : List ℤ) → length (written b i priorities) ≡ length priorities
  unfolding written
  length-written true i priorities = length-set priorities i priority
  length-written false i priorities = refl

  get_elem?-written :
      (b : Bool) (i j : ℕ) (priorities : List ℤ)
      → i < length priorities
      → get_elem? (written b i priorities) j
        ≡ (if i == j && b then some priority else get_elem? priorities j)
  unfolding written
  get_elem?-written true i j priorities h = elim (Bool-cases (i == j)) [
    | inl e ↦
        let same : i ≡ j = ground arith in
        rw same (ground (arith, get_elem?-set_self priorities j priority))
    | inr e ↦ ground (arith, get_elem?-set_ne priorities i j priority)
  ]
  get_elem?-written false i j priorities h = elim (Bool-cases (i == j)) [
    | inl e ↦ rw e refl
    | inr e ↦ rw e refl
  ]

  -- One round of the loop.
  write_priorities-step :
      (i : ℕ) (g : ℤ) (groups priorities : List ℤ)
      → i < length priorities
      → write_priorities port group priority i (g ∷ groups) priorities
        ≡ write_priorities port group priority
            (suc i)
            groups
            (written (is_affected port group i g) i priorities)
  unfolding write_priorities
  write_priorities-step i g groups ps h =
      let rest : Result ⊤ × List ℤ → Result ⊤ × List ℤ = λ out. elim out.0 [
        | ok done ↦ write_priorities port group priority (suc i) groups out.1
        | err e ↦ (err e, out.1)
      ] in
      ap rest (write_priority-written (is_affected port group i g) i ps h)

  write_priorities-marked :
      (i : ℕ) (groups priorities : List ℤ)
      → i + length groups ≤ length priorities
      → (write_priorities port group priority i groups priorities).0 ≡ ok tt
  unfolding write_priorities
  write_priorities-marked i [] ps h = refl
  write_priorities-marked i (g ∷ groups) ps h =
      let b = is_affected port group i g in
      let h' : suc i + length groups ≤ length (written b i ps) =
        omega (arith, length-written b i ps) in
      rw (write_priorities-step i g groups ps (omega arith))
        (write_priorities-marked (suc i) groups (written b i ps) h')

  get_elem?-write_priorities :
      (i : ℕ) (groups priorities : List ℤ) (j : ℕ)
      → i + length groups ≤ length priorities
      → get_elem? (write_priorities port group priority i groups priorities).1 j
        ≡ (if marked port group i groups j then some priority else get_elem? priorities j)
  unfolding write_priorities
  get_elem?-write_priorities i [] ps j h = refl
  get_elem?-write_priorities i (g ∷ groups) ps j h =
      let b = is_affected port group i g in
      let h' : suc i + length groups ≤ length (written b i ps) =
        omega (arith, length-written b i ps) in
      let rest = get_elem?-write_priorities (suc i) groups (written b i ps) j h' in
      rw (write_priorities-step i g groups ps (omega arith))
        (rest ∙ ground (arith, get_elem?-written b i j ps))

  marked-eq :
      (i j : ℕ) (groups : List ℤ)
      → i ≤ j
      → j < i + length groups
      → marked port group i groups j ≡ is_affected port group j (get_or groups (j - i) (pos 0))
  marked-eq i j [] h k = absurd (omega arith)
  marked-eq i j (g ∷ groups) h k = elim (Bool-cases (i == j)) [
    | inl e ↦
        let same : i ≡ j = ground arith in
        let first : j - j ≡ 0 = omega arith in
        rw (same, first) (ground (arith, marked_later (suc j) j groups))
    | inr e ↦
        let later : j - i ≡ suc (j - suc i) = ground arith in
        rw (later) (ground (arith, marked-eq (suc i) j groups))
  ]

-- The cache after it takes `priority` for `ports`: these ports have it, the other ports of
-- the device and the rest of the state are as they were.
pub record Agrees (priority : ℤ) (ports : List ℕ) (before after : QosState) : Type 0 where
  pub given : (q : ℕ) → contains q ports ≡ true → get_elem? after.priorities (q - 1) ≡ some priority
  pub others :
      (q : ℕ)
      → InRange (length before.trunk_groups) q
      → contains q ports ≡ false
      → get_elem? after.priorities (q - 1) ≡ get_elem? before.priorities (q - 1)
  pub same_groups : after.trunk_groups ≡ before.trunk_groups
  pub same_mode : after.mode ≡ before.mode

All-get_or :
    (groups : List ℤ) (i : ℕ) → All (λ g. pos 0 ≤ℤ g) groups → pos 0 ≤ℤ get_or groups i (pos 0)
All-get_or [] i h = ground arith
All-get_or (g ∷ groups) zero h = h.0
All-get_or (g ∷ groups) (suc i) h = All-get_or groups i h.1

index-get_or :
    (groups : List ℤ) (i : ℕ) → i < length groups → index groups i ≡ ok (get_or groups i (pos 0))
unfolding index
index-get_or [] i h = absurd (omega arith)
index-get_or (g ∷ groups) zero h = refl
index-get_or (g ∷ groups) (suc i) h = index-get_or groups i (omega arith)

-- The state after a loop that wrote `out`.
after_loop : QosState → Result ⊤ × List ℤ → Result ⊤ × QosState
after_loop state out = (out.0, record state { priorities = out.1 })

prioritized-port :
    (n : ℕ) (priority : ℤ) (state : QosState)
    → InRange (length state.trunk_groups) n
    → length state.priorities ≡ length state.trunk_groups
    → prioritized (pos n) priority state
      ≡ after_loop state (
          write_priorities
            (pos n)
            (group_of state.trunk_groups n)
            priority
            0
            state.trunk_groups
            state.priorities)
unfolding prioritized after_loop group_of
prioritized-port n priority state range same =
    let inside : (leb_ℤ (pos 1) (pos n) && leb_ℤ (pos n) (pos (length state.priorities))) ≡ true =
      ground arith in
    let found : Result ℤ → Result ⊤ × QosState = λ r. elim r [
      | err e ↦ (err e, state)
      | ok group ↦
          after_loop state
            (write_priorities (pos n) group priority 0 state.trunk_groups state.priorities)
    ] in
    ap (λ b. if b then found (index state.trunk_groups (n - 1)) else (ok tt, state)) inside
    ∙ ap found (index-get_or state.trunk_groups (n - 1) (omega arith))

same_Bool : (a b : Bool) → (a ≡ true → b ≡ true) → (b ≡ true → a ≡ true) → a ≡ b
same_Bool true b f g = sym (f refl)
same_Bool false true f g = g refl
same_Bool false false f g = refl

affected_by :
    (n q : ℕ) (gn gq : ℤ)
    → 1 ≤ q
    → pos 0 ≤ℤ gn
    → is_affected (pos n) gn (q - 1) gq ≡ true
    → (q ≡ n) ⊎ ((gq ≡ gn) × (gn ≢ pos 0))
unfolding is_affected
affected_by n q gn gq one above h = elim (Bool-cases (eqb_ℤ (pos (suc (q - 1))) (pos n))) [
  | inl here ↦ inl (ground arith)
  | inr there ↦ inr (ground arith, λ e. ground arith)
]

affected_of :
    (n q : ℕ) (gn gq : ℤ)
    → 1 ≤ q
    → pos 0 ≤ℤ gn
    → (q ≡ n) ⊎ ((gq ≡ gn) × (gn ≢ pos 0))
    → is_affected (pos n) gn (q - 1) gq ≡ true
unfolding is_affected
affected_of n q gn gq one above (inl e) = ground arith
affected_of n q (pos zero) gq one above (inr e) = absurd (e.1 refl)
affected_of n q (pos (suc k)) gq one above (inr e) = rw (e.0) (ground arith)
affected_of n q (negsuc k) gq one above (inr e) = absurd (ground arith)

module _ (n : ℕ) (priority : ℤ) (state : QosState) {ports : List ℕ}
    (range : InRange (length state.trunk_groups) n)
    (whole : IsWholeLag (pos n) state.trunk_groups ports)
    (same : length state.priorities ≡ length state.trunk_groups)
    (positive : All (λ g. pos 0 ≤ℤ g) state.trunk_groups) where
  -- The loop tests for a port of the whole LAG.
  is_affected-contains :
      (q : ℕ)
      → InRange (length state.trunk_groups) q
      → is_affected (pos n) (group_of state.trunk_groups n) (q - 1) (group_of state.trunk_groups q)
        ≡ contains q ports
  unfolding group_of
  is_affected-contains q r =
      let groups = state.trunk_groups in
      let number : n ≡ whole.number = ground (arith, whole.is_port) in
      let above = All-get_or groups (n - 1) positive in
      let members = whole.members q in
      same_Bool _ _
        (λ h.
          members.1 (elim (affected_by n q (group_of groups n) (group_of groups q) r.0 above h) [
            | inl e ↦ inl (e ∙ number)
            | inr e ↦
                inr
                  (r, e.0 ∙ ap (group_of groups) number, λ z. e.1 (ap (group_of groups) number ∙ z))
          ]))
        (λ h.
          affected_of n q (group_of groups n) (group_of groups q) r.0 above (elim (members.0 h) [
            | inl e ↦ inl (e ∙ sym number)
            | inr e ↦ inr (
              e.1 ∙ sym (ap (group_of groups) number),
              λ z. e.2 (sym (ap (group_of groups) number) ∙ z),
            )
          ]))

  priority_at :
      (q : ℕ)
      → InRange (length state.trunk_groups) q
      → get_elem?
          (write_priorities
            (pos n)
            (group_of state.trunk_groups n)
            priority
            0
            state.trunk_groups
            state.priorities).1
          (q - 1)
        ≡ (if contains q ports then some priority else get_elem? state.priorities (q - 1))
  unfolding group_of
  priority_at q r =
      let first : q - 1 - 0 ≡ q - 1 = omega arith in
      get_elem?-write_priorities (pos n) (group_of state.trunk_groups n) priority 0
        state.trunk_groups state.priorities (q - 1) (omega arith)
      ∙ ap (λ b. if b then some priority else get_elem? state.priorities (q - 1))
          (marked-eq (pos n) (group_of state.trunk_groups n) priority 0 (q - 1) state.trunk_groups
              (omega arith) (omega arith)
            ∙ ap
                (λ i.
                  is_affected (pos n) (group_of state.trunk_groups n) (q - 1)
                    (get_or state.trunk_groups i (pos 0)))
                first
            ∙ is_affected-contains q r)

  looped-Agrees :
      let out = after_loop state (
        write_priorities
          (pos n)
          (group_of state.trunk_groups n)
          priority
          0
          state.trunk_groups
          state.priorities) in
      (out.0 ≡ ok tt) × Agrees priority ports state out.1
  unfolding after_loop
  looped-Agrees = (
    write_priorities-marked (pos n) (group_of state.trunk_groups n) priority 0 state.trunk_groups
        state.priorities (omega arith),
    record {
      given = λ q m. elim ((whole.members q).0 m) [
        | inl e ↦
            let r : InRange (length state.trunk_groups) q = rw e whole.in_range in
            priority_at q r ∙ rw m refl
        | inr e ↦ priority_at q e.0 ∙ rw m refl
      ];
      others = λ q r m. priority_at q r ∙ rw m refl;
      same_groups = refl;
      same_mode = refl;
    },
  )

-- If a port may be set by the cached LAG numbers, and there is one priority and one LAG number for
-- each port, no LAG number negative, then the loop over the cached priorities succeeds; it gives the
-- priority to exactly the ports that `_ports_for_trunk` returns for the port and the cached LAG
-- numbers, and changes nothing else of the cached QoS state.
pub prioritized-Agrees :
    (port priority : ℤ) (state : QosState) {ports : List ℕ}
    → ports_for_trunk port state.trunk_groups ≡ ok ports
    → length state.priorities ≡ length state.trunk_groups
    → All (λ g. pos 0 ≤ℤ g) state.trunk_groups
    → ((prioritized port priority state).0 ≡ ok tt)
      × Agrees priority ports state (prioritized port priority state).1
prioritized-Agrees port priority state {ports} h same positive =
    let whole = ports_for_trunk-IsWholeLag port state.trunk_groups h in
    let lag : IsWholeLag (pos whole.number) state.trunk_groups ports =
      subst (λ p. IsWholeLag p state.trunk_groups ports) whole.is_port whole in
    subst (λ out. (out.0 ≡ ok tt) × Agrees priority ports state out.1)
      (sym (
        ap (λ p. prioritized p priority state) whole.is_port
        ∙ prioritized-port whole.number priority state whole.in_range same))
      (looped-Agrees whole.number priority state whole.in_range lag same positive)
