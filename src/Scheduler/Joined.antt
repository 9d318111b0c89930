-- ===== src/Scheduler/Joined.antt =====
-- Which rows the join of the schedules with their agents has.
use agentic_ops_platform.Prelude.{
  ◌≡◌, ap, sym, ◌∙◌, Bool, true, Option, none, some, List, [], ◌∷◌, ◌⊎◌, inl, inr, Bool-cases, Memᴰ,
  mem-cons,
}
use agentic_ops_platform.Models.{Agent, Schedule, Db}
use agentic_ops_platform.Scheduler.{with_agent, agent_of, joined}

with_agent-mem :
    (p : Schedule → Agent → Bool) (x : Schedule) (o : Option Agent) (rest : List (Schedule × Agent))
    (s : Schedule) (a : Agent)
    → Memᴰ (s, a) (with_agent p x o rest)
    → ((s ≡ x) × (p s a ≡ true) × (o ≡ some a)) ⊎ Memᴰ (s, a) rest
with_agent-mem p x none rest s a m = inr m
with_agent-mem p x (some b) rest s a m = elim (Bool-cases (p x b)) [
  | inl hit ↦ elim (mem-cons (s, a) (x, b) rest (rw hit at m)) [
    | inl e ↦
        let same : s ≡ x = ap (λ (q : Schedule × Agent). q.0) e in
        let same_agent : a ≡ b = ap (λ (q : Schedule × Agent). q.1) e in
        inl (same, rw (same, same_agent) hit, ap (λ x. some x) (sym same_agent))
    | inr later ↦ inr later
  ]
  | inr miss ↦ inr (rw miss at m)
]

-- The rows of a join pass its test, and come from the tables.
pub joined-mem :
    (p : Schedule → Agent → Bool) (db : Db) (ss : List Schedule) (s : Schedule) (a : Agent)
    → Memᴰ (s, a) (joined p db ss)
    → Memᴰ s ss × (p s a ≡ true) × (agent_of db s ≡ some a)
joined-mem p db [] s a m = elim m [ ]
joined-mem p db (x ∷ xs) s a m = elim (with_agent-mem p x (agent_of db x) (joined p db xs) s a m) [
  | inl (same, hit, of_agent) ↦ (Memᴰ.head same, hit, ap (agent_of db) same ∙ of_agent)
  | inr later ↦
      let (m', hit, of_agent) = joined-mem p db xs s a later in (Memᴰ.tail m', hit, of_agent)
]
