-- ===== src/ApprovalBroker/Once.antt =====
-- How often an approval is prompted for.
use agentic_ops_platform.Prelude.{
  ℕ, String, ◌≡◌, refl, Bool, true, false, str_eq, some, [], ◌∷◌, Bool-cases, inl, inr, ◌⊎◌,
  find_where, find-update_where_hit, ==_refl,
}
use agentic_ops_platform.Py.Json.{
  Dict, text, obj, get, either, str, truthy, as_dict, is_empty, get-put,
}
use agentic_ops_platform.Models.{Task, Approval, Db}
use agentic_ops_platform.Models.Store.{has_approval_id}
use agentic_ops_platform.Settings.{Settings}
use agentic_ops_platform.ApprovalBroker.Prompt.{Clients, Post, Sent, sent, refused}
use agentic_ops_platform.ApprovalBroker.Delivery.{
  delivery_text, has_channel, prompt_post, post_id_of, posted_delivery, delivered, finish_delivery,
  deliver,
}

finish_delivery-posts :
    (c : Clients) (now : ℕ) (t : Task) (a : Approval) (db : Db) (post : Post) (answer : Sent)
    → (finish_delivery c now t a db post answer).posts ≡ post ∷ []
unfolding finish_delivery
finish_delivery-posts c now t a db post (sent answer) = refl
finish_delivery-posts c now t a db post (refused error) = refl

-- A pending approval with a channel and no post is prompted for.
deliver-posts :
    (c : Clients) (s : Settings) (now : ℕ) (t : Task) (a : Approval) (db : Db)
    → str_eq a.status "pending" ≡ true
    → has_channel t ≡ true
    → str_eq (delivery_text "post_id" a) "" ≡ true
    → (deliver c s now t a db).posts ≡ prompt_post c s t a ∷ []
unfolding deliver
deliver-posts c s now t a db pending channel fresh =
    rw (pending, fresh, channel)
      (finish_delivery-posts c now t a db (prompt_post c s t a) (c.send (prompt_post c s t a)))

-- An approval with a post is left as it is.
deliver-silent :
    (c : Clients) (s : Settings) (now : ℕ) (t : Task) (a : Approval) (db : Db)
    → str_eq (delivery_text "post_id" a) "" ≡ false
    → ((deliver c s now t a db).posts ≡ []) × ((deliver c s now t a db).left ≡ db)
unfolding deliver
deliver-silent c s now t a db posted = elim (Bool-cases (str_eq a.status "pending")) [
  | inl pending ↦ rw (pending, posted) (refl, refl)
  | inr other ↦ rw other (refl, refl)
]

str-either_text : (x : String) → str_eq x "" ≡ false → str (either (text x) (text "")) ≡ x
unfolding str either truthy
str-either_text x h = rw h refl

stored-post_id :
    (now : ℕ) (t : Task) (answer : Dict) (a : Approval)
    → str_eq (post_id_of answer) "" ≡ false
    → delivery_text "post_id" (delivered true now (posted_delivery now t answer) a)
      ≡ post_id_of answer
unfolding delivery_text
stored-post_id now t answer a h =
    rw
      (get-put "gateway_delivery" "gateway_delivery" (obj (posted_delivery now t answer))
        a.approval_metadata)
      (unfold as_dict posted_delivery get in str-either_text (post_id_of answer) h)

-- A second call, by what the ORM sees.
second_call :
    (c : Clients) (s : Settings) (now now' : ℕ) (t : Task) (a : Approval) (db : Db) (answer : Dict)
    (sees : Bool)
    → str_eq a.status "pending" ≡ true
    → has_channel t ≡ true
    → str_eq (delivery_text "post_id" a) "" ≡ true
    → str_eq (post_id_of answer) "" ≡ false
    → is_empty a.approval_metadata ≡ false
    → let stored = delivered sees now (posted_delivery now t answer) a in
      let second = deliver c s now' t stored db in
      (sees ≡ true) × (second.posts ≡ []) × (second.left ≡ db)
      ⊎ (sees ≡ false) × (second.posts ≡ prompt_post c s t stored ∷ [])
second_call c s now now' t a db answer true pending channel fresh has_id kept =
    let silent =
      deliver-silent c s now' t (delivered true now (posted_delivery now t answer) a) db
        (rw (stored-post_id now t answer a has_id) has_id) in
    inl (refl, silent.0, silent.1)
second_call c s now now' t a db answer false pending channel fresh has_id kept = inr (
  refl,
  deliver-posts c s now' t (delivered false now (posted_delivery now t answer) a) db pending channel
      (unfold delivery_text in rw kept fresh),
)

deliver-stored :
    (c : Clients) (s : Settings) (now : ℕ) (t : Task) (a : Approval) (db : Db) (answer : Dict)
    → str_eq a.status "pending" ≡ true
    → has_channel t ≡ true
    → str_eq (delivery_text "post_id" a) "" ≡ true
    → c.send (prompt_post c s t a) ≡ sent answer
    → find_where (has_approval_id a.id) db.approvals ≡ some a
    → find_where (has_approval_id a.id) (deliver c s now t a db).left.approvals
      ≡ some (delivered c.sees_in_place now (posted_delivery now t answer) a)
unfolding deliver finish_delivery
deliver-stored c s now t a db answer pending channel fresh answers there =
    rw (pending, fresh, channel, answers)
      (find-update_where_hit (has_approval_id a.id) (has_approval_id a.id)
        (delivered c.sees_in_place now (posted_delivery now t answer)) (λ x _. refl) db.approvals a
        there (==_refl a.id))

-- Of a pending approval that is stored under its id, whose task has a channel, for which no post is
-- stored, and whose metadata is not empty: if the provider answers its prompt with an id of the
-- post, then the first call sends that prompt and no other; and a second call, on the row as the
-- first has stored it, sends nothing and changes nothing where the ORM writes a dictionary back that
-- was changed in place; where it does not, the second call sends a prompt again.
pub deliver-once :
    (c : Clients) (s : Settings) (now now' : ℕ) (t : Task) (a : Approval) (db : Db) (answer : Dict)
    → find_where (has_approval_id a.id) db.approvals ≡ some a
    → str_eq a.status "pending" ≡ true
    → has_channel t ≡ true
    → str_eq (delivery_text "post_id" a) "" ≡ true
    → c.send (prompt_post c s t a) ≡ sent answer
    → str_eq (post_id_of answer) "" ≡ false
    → is_empty a.approval_metadata ≡ false
    → let first = deliver c s now t a db in
      (first.posts ≡ prompt_post c s t a ∷ [])
      × ((stored : Approval) × (find_where (has_approval_id a.id) first.left.approvals
            ≡ some stored)
          × ((c.sees_in_place ≡ true)
                × ((deliver c s now' t stored first.left).posts ≡ [])
                × ((deliver c s now' t stored first.left).left ≡ first.left)
              ⊎ (c.sees_in_place ≡ false)
                × ((deliver c s now' t stored first.left).posts ≡ prompt_post c s t stored ∷ [])))
deliver-once c s now now' t a db answer there pending channel fresh answers has_id kept = (
  deliver-posts c s now t a db pending channel fresh,
  (
    delivered c.sees_in_place now (posted_delivery now t answer) a,
    deliver-stored c s now t a db answer pending channel fresh answers there,
    second_call c s now now' t a (deliver c s now t a db).left answer c.sees_in_place pending
        channel fresh has_id kept,
  ),
)
