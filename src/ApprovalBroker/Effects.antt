-- ===== src/ApprovalBroker/Effects.antt =====
-- What the delivery of a prompt does to the database.
use agentic_ops_platform.Prelude.{
  ℕ, ◌≡◌, refl, Bool, not, ◌||◌, str_eq, Option, none, some, Bool-cases, inl, inr,
}
use agentic_ops_platform.Py.Json.{Dict}
use agentic_ops_platform.Models.{Task, Approval, Db}
use agentic_ops_platform.Models.Store.{update_approval}
use agentic_ops_platform.Models.Sound.{IsSound, update_approval-IsSound}
use agentic_ops_platform.Settings.{Settings}
use agentic_ops_platform.Approvals.Steps.{KeepsKeys}
use agentic_ops_platform.Approvals.Open.{OnePending, change-count}
use agentic_ops_platform.ApprovalBroker.Prompt.{Clients, Post, Sent, sent, refused}
use agentic_ops_platform.ApprovalBroker.Delivery.{
  delivery_text, has_channel, prompt_post, delivered, finish_delivery, deliver,
  ensure_approval_prompt_posted,
}

-- Nothing, or one approval whose keys and status stay.
pub data Notes (db left : Db) : Type 0 where
  silent : left ≡ db → Notes db left
  noted :
      (k : ℕ) (f : Approval → Approval)
      → KeepsKeys f
      → ((a : Approval) → (f a).status ≡ a.status)
      → left ≡ update_approval k f db
      → Notes db left

delivered-Notes :
    (sees : Bool) (now : ℕ) (delivery : Dict) (k : ℕ) (db : Db)
    → Notes db (update_approval k (delivered sees now delivery) db)
delivered-Notes sees now delivery k db =
    noted k (delivered sees now delivery)
      (record { same_id = λ a. refl; same_task = λ a. refl; same_tool = λ a. refl }) (λ a. refl)
      refl

finish_delivery-Notes :
    (c : Clients) (now : ℕ) (t : Task) (a : Approval) (db : Db) (post : Post) (answer : Sent)
    → Notes db (finish_delivery c now t a db post answer).left
unfolding finish_delivery
finish_delivery-Notes c now t a db post (sent answer) =
    delivered-Notes c.sees_in_place now _ a.id db
finish_delivery-Notes c now t a db post (refused error) =
    delivered-Notes c.sees_in_place now _ a.id db

deliver-Notes :
    (c : Clients) (s : Settings) (now : ℕ) (t : Task) (a : Approval) (db : Db)
    → Notes db (deliver c s now t a db).left
unfolding deliver
deliver-Notes c s now t a db =
    elim (Bool-cases
      (not (str_eq a.status "pending") || not (str_eq (delivery_text "post_id" a) ""))) [
        | inl done ↦ rw done (silent refl)
        | inr open_ ↦ elim (Bool-cases (has_channel t)) [
          | inl channel ↦
              rw (open_, channel)
                (finish_delivery-Notes c now t a db (prompt_post c s t a)
                  (c.send (prompt_post c s t a)))
          | inr nowhere ↦ rw (open_, nowhere) (delivered-Notes c.sees_in_place now _ a.id db)
        ]
      ]

pub ensure_approval_prompt_posted-Notes :
    (c : Clients) (s : Settings) (now : ℕ) (task : Option Task) (approval : Option Approval)
    (db : Db)
    → Notes db (ensure_approval_prompt_posted c s now task approval db).left
unfolding ensure_approval_prompt_posted
ensure_approval_prompt_posted-Notes c s now none approval db = silent refl
ensure_approval_prompt_posted-Notes c s now (some t) none db = silent refl
ensure_approval_prompt_posted-Notes c s now (some t) (some a) db = deliver-Notes c s now t a db

pub Notes-tasks : (db left : Db) → Notes db left → left.tasks ≡ db.tasks
Notes-tasks db left (silent same) = rw same refl
Notes-tasks db left (noted k f keeps stays same) = rw same refl

pub Notes-IsSound : (db left : Db) → IsSound db → Notes db left → IsSound left
Notes-IsSound db left s (silent same) = rw same s
Notes-IsSound db left s (noted k f keeps stays same) =
    rw same (update_approval-IsSound db k f keeps.same_id keeps.same_task s)

pub Notes-OnePending : (db left : Db) → OnePending db → Notes db left → OnePending left
Notes-OnePending db left one (silent same) = rw same one
Notes-OnePending db left one (noted k f keeps stays same) = record {
  one = λ j name. rw (same, change-count db f k j name keeps stays) (one.one j name);
}
