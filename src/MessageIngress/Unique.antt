-- ===== src/MessageIngress/Unique.antt =====
-- Which route a message takes.
use agentic_ops_platform.Prelude.{
  ◌≤◌, ◌<◌, String, ◌≡◌, refl, sym, ap, subst, true, ◌==◌, Option, none, some, List, [], ◌∷◌, ◌⊎◌,
  inl, inr, Memᴰ, Bool-cases, arith, str_eq, eq_iff, any, mem-append_left, mem-snoc, snoc-mem,
  any-Mem, mem-select_where, select_where-mem, mem-cons,
}
use agentic_ops_platform.MessageIngress.{
  InboundMessage, MessageRoute, Patterns, Match, prompt_for, same_words, same_identity, set_default,
  add_match, collect, highest_priority, only, winners, route_input, match_message_route,
}

str_eq_refl : (x : String) → str_eq x x ≡ true
str_eq_refl x = (eq_iff x x).1 refl

same_words_refl : (xs : List String) → same_words xs xs ≡ true
unfolding same_words
same_words_refl [] = refl
same_words_refl (x ∷ xs) = rw (str_eq_refl x, same_words_refl xs) refl

same_identity_refl : (r : MessageRoute) → same_identity r r ≡ true
unfolding same_identity
same_identity_refl r =
    rw
      (
        str_eq_refl r.workflow,
        str_eq_refl r.rule_id,
        str_eq_refl r.match_type,
        str_eq_refl r.pattern,
        same_words_refl r.trigger_words,
      )
      refl

highest_priority-le :
    (xs : List Match) (x : Match) → Memᴰ x xs → x.route.priority ≤ highest_priority xs
unfolding highest_priority
highest_priority-le [] x m = elim m [ ]
highest_priority-le (y ∷ ys) x (Memᴰ.head e) =
    let same : x.route.priority ≡ y.route.priority = ap (λ z. z.route.priority) e in
    ground (arith, same)
highest_priority-le (y ∷ ys) x (Memᴰ.tail m) = ground (arith, highest_priority-le ys x m)

-- The routes that are matched keep their places.
add_match-keeps :
    (route : MessageRoute) (o : Option String) (ms : List Match) (y : Match)
    → Memᴰ y ms
    → Memᴰ y (add_match route o ms)
unfolding add_match set_default
add_match-keeps route none ms y m = m
add_match-keeps route (some prompt) ms y m =
    elim (Bool-cases (any (λ (z : Match). same_identity z.route route) ms)) [
      | inl old ↦ rw old m
      | inr new ↦ rw new (mem-append_left ms _ y m)
    ]

-- A match of the same identity stands for the route.
abbrev StandsFor : MessageRoute → List Match → Type 0
StandsFor route ms = (y : Match) × Memᴰ y ms × (same_identity y.route route ≡ true)

add_match-StandsFor :
    (route : MessageRoute) (prompt : String) (ms : List Match)
    → StandsFor route (add_match route (some prompt) ms)
unfolding add_match set_default
add_match-StandsFor route prompt ms =
    elim (Bool-cases (any (λ (z : Match). same_identity z.route route) ms)) [
      | inl old ↦ rw old (any-Mem (λ (z : Match). same_identity z.route route) ms old)
      | inr new ↦ rw new (
        record { route = route; prompt = prompt },
        mem-snoc ms (record { route = route; prompt = prompt }),
        same_identity_refl route,
      )
    ]

module _ (p : Patterns) (m : InboundMessage) (s : String) where
  collect-keeps :
      (routes : List MessageRoute) (ms : List Match) (y : Match)
      → Memᴰ y ms
      → Memᴰ y (collect p m s routes ms)
  unfolding collect
  collect-keeps [] ms y h = h
  collect-keeps (route ∷ routes) ms y h =
      collect-keeps routes _ y (add_match-keeps route (prompt_for p m s route) ms y h)

  covers_first :
      (route : MessageRoute) (routes : List MessageRoute) (ms : List Match) (o : Option String)
      → prompt_for p m s route ≡ o
      → (o ≡ none) ⊎ StandsFor route (collect p m s routes (add_match route o ms))
  covers_first route routes ms none e = inl refl
  covers_first route routes ms (some prompt) e =
      let (y, h, same) = add_match-StandsFor route prompt ms in
      inr (y, collect-keeps routes (add_match route (some prompt) ms) y h, same)

  collect-covers :
      (routes : List MessageRoute) (ms : List Match) (r : MessageRoute)
      → Memᴰ r routes
      → (prompt_for p m s r ≡ none) ⊎ StandsFor r (collect p m s routes ms)
  unfolding collect
  collect-covers [] ms r h = elim h [ ]
  collect-covers (route ∷ routes) ms r (Memᴰ.head e) =
      subst
        (λ q.
          (prompt_for p m s q ≡ none)
          ⊎ StandsFor q (collect p m s routes (add_match route (prompt_for p m s route) ms)))
        (sym e) (covers_first route routes ms (prompt_for p m s route) refl)
  collect-covers (route ∷ routes) ms r (Memᴰ.tail h) = collect-covers routes _ r h

  module _ (all_ : List MessageRoute) where
    -- A match is of a route in the list, with the prompt of that route.
    abbrev Applies : Match → Type 0
    Applies y = Memᴰ y.route all_ × (prompt_for p m s y.route ≡ some y.prompt)

    add_match-Applies :
        (route : MessageRoute) (o : Option String) (ms : List Match)
        → Memᴰ route all_
        → prompt_for p m s route ≡ o
        → ((y : Match) → Memᴰ y ms → Applies y)
        → (y : Match) → Memᴰ y (add_match route o ms)
        → Applies y
    unfolding add_match set_default
    add_match-Applies route none ms there e before y h = before y h
    add_match-Applies route (some prompt) ms there e before y h =
        elim (Bool-cases (any (λ (z : Match). same_identity z.route route) ms)) [
          | inl old ↦ before y (rw old at h)
          | inr new ↦
              elim (snoc-mem ms (record { route = route; prompt = prompt }) y (rw new at h)) [
                | inl h' ↦ before y h'
                | inr same ↦ subst Applies (sym same) (there, e)
              ]
        ]

    collect-Applies :
        (routes : List MessageRoute) (ms : List Match)
        → ((r : MessageRoute) → Memᴰ r routes → Memᴰ r all_)
        → ((y : Match) → Memᴰ y ms → Applies y)
        → (y : Match) → Memᴰ y (collect p m s routes ms)
        → Applies y
    unfolding collect
    collect-Applies [] ms within before y h = before y h
    collect-Applies (route ∷ routes) ms within before y h =
        collect-Applies routes _ (λ r k. within r (Memᴰ.tail k))
          (add_match-Applies route (prompt_for p m s route) ms (within route (Memᴰ.head refl)) refl
            before)
          y h

only-eq-some : (xs : List Match) (x : Match) → only xs ≡ some x → xs ≡ x ∷ []
only-eq-some [] x h = cc
only-eq-some (y ∷ []) x h = let same : y ≡ x = cc in ap (λ z. z ∷ []) same
only-eq-some (y ∷ z ∷ zs) x h = cc

-- The winner is a match, and any other match has a lower priority.
winner-IsHighest :
    (ms : List Match) (x : Match)
    → only (winners ms) ≡ some x
    → Memᴰ x ms × ((y : Match) → Memᴰ y ms → (y ≡ x) ⊎ (y.route.priority < x.route.priority))
winner-IsHighest ms x h =
    let top = λ (z : Match). z.route.priority == highest_priority ms in
    let alone = only-eq-some (winners ms) x h in
    let (there, is_top) =
      select_where-mem top ms x (subst (λ l. Memᴰ x l) (sym alone) (Memᴰ.head refl)) in
    (
      there,
      λ y k. elim (Bool-cases (top y)) [
        | inl wins ↦
            elim (mem-cons y x []
              (subst (λ l. Memᴰ y l) alone (mem-select_where top ms y k wins))) [
                | inl same ↦ inl same
                | inr none_ ↦ elim none_ [ ]
              ]
        | inr loses ↦ let le = highest_priority-le ms y k in inr (ground (arith, le, loses, is_top))
      ],
    )

-- The route that a message takes, with its prompt.
pub record IsChosen (p : Patterns) (m : InboundMessage) (routes : List MessageRoute) (x : Match)
    : Type 0 where
  pub listed : Memᴰ x.route routes
  pub applies : prompt_for p m (route_input m) x.route ≡ some x.prompt
  pub others :
      (r : MessageRoute)
      → Memᴰ r routes
      → (prompt_for p m (route_input m) r ≡ none)
        ⊎ ((y : Match) × Memᴰ y.route routes
            × (prompt_for p m (route_input m) y.route ≡ some y.prompt)
            × (same_identity y.route r ≡ true)
            × ((y ≡ x) ⊎ (y.route.priority < x.route.priority)))

-- A message that matches takes a route of the list, with the prompt of that route; and of every
-- other route in the list, the message has no prompt for it, or a route of the same workflow, rule
-- and pattern that has one is the route taken or has a lower priority.
pub match_message_route-IsChosen :
    (p : Patterns) (m : InboundMessage) (routes : List MessageRoute) (x : Match)
    → match_message_route p m routes ≡ some x
    → IsChosen p m routes x
unfolding match_message_route
match_message_route-IsChosen p m routes x h =
    let s = route_input m in
    let ms = collect p m s routes [] in
    let (there, highest) = winner-IsHighest ms x h in
    let applies = collect-Applies p m s routes routes [] (λ r k. k) (λ y k. elim k [ ]) in
    record {
      listed = (applies x there).0;
      applies = (applies x there).1;
      others = λ r k. elim (collect-covers p m s routes [] r k) [
        | inl none_ ↦ inl none_
        | inr (y, member, same) ↦
            inr (y, (applies y member).0, (applies y member).1, same, highest y member)
      ];
    }
