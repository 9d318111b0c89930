-- ===== src/Examples/Listing.antt =====
-- The theorem on the listing of tasks, applied to a queue of four tasks.
use agentic_ops_platform.Prelude.{refl, true, false, none, IsOrder}
use agentic_ops_platform.TaskQueue.Listing.{Filter, Postgres, list_tasks}
use agentic_ops_platform.TaskQueue.Listing.Pages.{IsPage, list_tasks-IsPage}
use agentic_ops_platform.Examples.{some_db}

abbrev any_task : Filter
any_task = record {
  workflow = none;
  status = none;
  channel = none;
  search = none;
  created_after = none;
  created_before = none;
  include_archived = false;
}

-- ILIKE and the order of texts that tell nothing apart
abbrev no_texts : Postgres
no_texts = record { ilike = λ p s. true; text_before = λ s t. false }

no_texts-IsOrder : IsOrder no_texts.text_before
no_texts-IsOrder = record {
  irrefl = λ s. refl;
  neg_trans = λ s t u h k. refl;
  asymm = λ s t h. refl;
}

list_tasks-IsPage_example :
    IsPage no_texts any_task "created" "desc" 3 2 some_db
      (list_tasks no_texts any_task "created" "desc" 3 2 some_db)
list_tasks-IsPage_example =
    list_tasks-IsPage no_texts any_task "created" "desc" 3 2 some_db no_texts-IsOrder
