-- ===== src/TaskQueue/Listing/Asked.antt =====
-- What the filters of a page ask of a task.
use Prim.Native.String.{◌++◌ as ◌+++◌}
use agentic_ops_platform.Prelude.{
  ℕ, ◌≤◌, String, ◌≡◌, refl, ap, Bool, true, false, not, ◌&&◌, ◌||◌, leb, str_eq, eq_iff, Option,
  none, some, ◌⊎◌, inl, inr, is_some, some_and, arith, Bool-cases,
}
use agentic_ops_platform.Models.{Task}
use agentic_ops_platform.Models.Status.{TaskStatus}
use agentic_ops_platform.TaskQueue.Listing.{
  Postgres, Filter, status_rank, found_text, listed, wanted, wanted_time, wanted_status,
}

-- A text that is given and not empty.
abbrev pub IsGiven : Option String → String → Type 0
IsGiven o s = (o ≡ some s) × (str_eq s "" ≡ false)

-- What the filters ask of a task.
pub record IsListed (pg : Postgres) (f : Filter) (t : Task) : Type 0 where
  pub live : f.include_archived ≡ false → t.archived_at ≡ none
  pub workflow : (w : String) → IsGiven f.workflow w → t.workflow ≡ w
  pub status : (s : TaskStatus) → f.status ≡ some s → status_rank t.status ≡ status_rank s
  pub channel : (c : String) → IsGiven f.channel c → t.channel ≡ some c
  pub after : (at : ℕ) → f.created_after ≡ some at → at ≤ t.created
  pub before : (at : ℕ) → f.created_before ≡ some at → t.created ≤ at
  pub search :
      (s : String)
      → IsGiven f.search s
      → let pattern = ◌+++◌ "%" (◌+++◌ s "%") in
        (pg.ilike pattern t.prompt ≡ true)
        ⊎ (pg.ilike pattern t.workflow ≡ true)
        ⊎ ((e : String) × (t.error ≡ some e) × (pg.ilike pattern e ≡ true))

and_parts : (a b : Bool) → (a && b) ≡ true → (a ≡ true) × (b ≡ true)
and_parts true b h = (refl, h)
and_parts false b h = cc

given-holds :
    (o : Option String) (s : String) (p : String → Bool)
    → IsGiven o s
    → wanted o p ≡ true
    → p s ≡ true
given-holds o s p (e, full) h = let k = rw e at h in ground arith

time-holds :
    (o : Option ℕ) (n : ℕ) (p : ℕ → Bool) → o ≡ some n → wanted_time o p ≡ true → p n ≡ true
time-holds o n p e h = rw e at h

leb_holds : (a b : ℕ) → leb a b ≡ true → a ≤ b
leb_holds a b h = ground arith

status-holds :
    (o : Option TaskStatus) (w s : TaskStatus)
    → o ≡ some w
    → wanted_status o s ≡ true
    → status_rank s ≡ status_rank w
status-holds o w s e h = let k = rw e at h in ground arith

channel-same : (o : Option String) (c : String) → some_and o (λ d. str_eq d c) ≡ true → o ≡ some c
channel-same none c h = cc
channel-same (some d) c h = ap some ((eq_iff d c).0 h)

found-in :
    (pg : Postgres) (t : Task) (s : String)
    → found_text pg t s ≡ true
    → let pattern = ◌+++◌ "%" (◌+++◌ s "%") in
      (pg.ilike pattern t.prompt ≡ true)
      ⊎ (pg.ilike pattern t.workflow ≡ true)
      ⊎ ((e : String) × (t.error ≡ some e) × (pg.ilike pattern e ≡ true))
unfolding found_text
found-in pg t s h =
    let pattern = ◌+++◌ "%" (◌+++◌ s "%") in
    elim (Bool-cases (pg.ilike pattern t.prompt)) [
      | inl a ↦ inl a
      | inr a ↦ elim (Bool-cases (pg.ilike pattern t.workflow)) [
        | inl b ↦ inr (inl b)
        | inr b ↦ inr (inr (in_error t.error (rw (a, b) at h)))
      ]
    ]
  where
    in_error :
        {q : String → Bool} (o : Option String)
        → some_and o q ≡ true
        → (e : String) × (o ≡ some e) × (q e ≡ true)
    in_error none k = cc
    in_error (some e) k = (e, refl, k)

pub listed-IsListed :
    (pg : Postgres) (f : Filter) (t : Task) → listed pg f t ≡ true → IsListed pg f t
unfolding listed
listed-IsListed pg f t h =
    let by_workflow = λ (w : String). str_eq t.workflow w in
    let by_channel = λ (c : String). some_and t.channel (λ d. str_eq d c) in
    let by_after = λ (at : ℕ). leb at t.created in
    let by_before = λ (at : ℕ). leb t.created at in
    let alive = f.include_archived || not (is_some t.archived_at) in
    let in_workflow = alive && wanted f.workflow by_workflow in
    let in_status = in_workflow && wanted_status f.status t.status in
    let in_channel = in_status && wanted f.channel by_channel in
    let later = in_channel && wanted_time f.created_after by_after in
    let timely = later && wanted_time f.created_before by_before in
    let (h1, search) = and_parts timely (wanted f.search (found_text pg t)) h in
    let (h2, before) = and_parts later (wanted_time f.created_before by_before) h1 in
    let (h3, after) = and_parts in_channel (wanted_time f.created_after by_after) h2 in
    let (h4, channel) = and_parts in_status (wanted f.channel by_channel) h3 in
    let (h5, status) = and_parts in_workflow (wanted_status f.status t.status) h4 in
    let (live, workflow) = and_parts alive (wanted f.workflow by_workflow) h5 in
    record {
      live = λ e. no_archive f.include_archived t.archived_at e live;
      workflow = λ w g. (eq_iff t.workflow w).0 (given-holds f.workflow w by_workflow g workflow);
      status = λ s g. status-holds f.status s t.status g status;
      channel = λ c g. channel-same t.channel c (given-holds f.channel c by_channel g channel);
      after = λ at g. leb_holds at t.created (time-holds f.created_after at by_after g after);
      before = λ at g. leb_holds t.created at (time-holds f.created_before at by_before g before);
      search = λ s g. found-in pg t s (given-holds f.search s (found_text pg t) g search);
    }
  where
    no_archive : (b : Bool) (o : Option ℕ) → b ≡ false → (b || not (is_some o)) ≡ true → o ≡ none
    no_archive b none e k = refl
    no_archive true (some n) e k = cc
    no_archive false (some n) e k = cc

both_hold : (a b : Bool) → a ≡ true → b ≡ true → (a && b) ≡ true
both_hold a b h k = rw (h, k) refl

one_holds : (a b c : Bool) → (a ≡ true) ⊎ (b ≡ true) ⊎ (c ≡ true) → (a || b || c) ≡ true
one_holds true b c h = refl
one_holds false true c h = refl
one_holds false false true h = refl
one_holds false false false (inl h) = cc
one_holds false false false (inr (inl h)) = cc
one_holds false false false (inr (inr h)) = cc

holds-wanted :
    (o : Option String) (p : String → Bool)
    → ((s : String) → IsGiven o s → p s ≡ true)
    → wanted o p ≡ true
holds-wanted none p f = refl
holds-wanted (some s) p f = elim (Bool-cases (str_eq s "")) [
  | inl e ↦ rw e refl
  | inr e ↦ rw (e, f s (refl, e)) refl
]

holds-wanted_time :
    (o : Option ℕ) (p : ℕ → Bool) → ((n : ℕ) → o ≡ some n → p n ≡ true) → wanted_time o p ≡ true
holds-wanted_time none p f = refl
holds-wanted_time (some n) p f = f n refl

holds-wanted_status :
    (o : Option TaskStatus) (s : TaskStatus)
    → ((w : TaskStatus) → o ≡ some w → status_rank s ≡ status_rank w)
    → wanted_status o s ≡ true
holds-wanted_status none s f = refl
holds-wanted_status (some w) s f = let k = f w refl in ground arith

le_holds : (a b : ℕ) → a ≤ b → leb a b ≡ true
le_holds a b h = ground arith

found-text :
    (pg : Postgres) (t : Task) (s : String)
    → let pattern = ◌+++◌ "%" (◌+++◌ s "%") in
      (pg.ilike pattern t.prompt ≡ true)
        ⊎ (pg.ilike pattern t.workflow ≡ true)
        ⊎ ((e : String) × (t.error ≡ some e) × (pg.ilike pattern e ≡ true))
      → found_text pg t s ≡ true
unfolding found_text
found-text pg t s h = one_holds _ _ _ (elim h [
  | inl a ↦ inl a
  | inr (inl b) ↦ inr (inl b)
  | inr (inr (e, given, k)) ↦ inr (inr (rw (given, k) refl))
])

pub IsListed-listed :
    (pg : Postgres) (f : Filter) (t : Task) → IsListed pg f t → listed pg f t ≡ true
unfolding listed
IsListed-listed pg f t h =
    both_hold _ _
      (both_hold _ _
        (both_hold _ _
          (both_hold _ _
            (both_hold _ _
              (both_hold _ _ (alive f.include_archived t.archived_at h.live) (
                holds-wanted f.workflow (λ w. str_eq t.workflow w)
                  (λ w g. (eq_iff t.workflow w).1 (h.workflow w g))))
              (holds-wanted_status f.status t.status h.status))
            (holds-wanted f.channel (λ c. some_and t.channel (λ d. str_eq d c))
              (λ c g. rw (h.channel c g) ((eq_iff c c).1 refl))))
          (holds-wanted_time f.created_after (λ at. leb at t.created)
            (λ at e. le_holds at t.created (h.after at e))))
        (holds-wanted_time f.created_before (λ at. leb t.created at)
          (λ at e. le_holds t.created at (h.before at e))))
      (holds-wanted f.search (found_text pg t) (λ s g. found-text pg t s (h.search s g)))
  where
    alive : (b : Bool) (o : Option ℕ) → (b ≡ false → o ≡ none) → (b || not (is_some o)) ≡ true
    alive true o k = refl
    alive false o k = rw (k refl) refl
