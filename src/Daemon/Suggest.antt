-- ===== src/Daemon/Suggest.antt =====
-- crates/daemon/src/listener/suggest.rs: what an error message suggests for a name that is not found.
pub mod Distance
pub mod Matches
use Prim.Native.Char.{code}
use oddjobs.Prelude.{
  ◌++◌, ℕ, suc, ◌+◌, ◌/◌, String, Option, none, some, List, [], ◌∷◌, Bool, true, false, not, ◌&&◌,
  ◌||◌, ◌==◌, starts_with, eqb, ltb, leb, if◌then◌else◌, length,
}
use oddjobs.Prelude.Map.{Map}
use oddjobs.Core.Names.{split_scoped_name}
use oddjobs.Storage.State.{MaterializedState, QueueItem, WorkerRecord, CronRecord}
use oddjobs.Storage.Wal.{utf8_len}

-- `min`
unfoldable pub min_of : ℕ → ℕ → ℕ
min_of a b = if leb a b then a else b

-- `chars().collect()`
unfoldable pub chars : String → List ℕ
chars String.[] = []
chars (String.◌∷◌ c s) = code c ∷ chars s

unfoldable pub cost : ℕ → ℕ → ℕ
cost a b = if eqb a b then 0 else 1

-- The row of index 0: `dp[0][j] = j`, from `j` on.
unfoldable pub first_row : ℕ → List ℕ → List ℕ
first_row j [] = j ∷ []
first_row j (c ∷ cs) = j ∷ first_row (j + 1) cs

-- The inner loop: the cells after `left`, from the row above, which starts one column to the left.
unfoldable pub row_cells : ℕ → ℕ → List ℕ → List ℕ → List ℕ
row_cells a left (diagonal ∷ above ∷ up) (b ∷ bs) =
    let cell = min_of (min_of (above + 1) (left + 1)) (diagonal + cost a b) in
    cell ∷ row_cells a cell (above ∷ up) bs
row_cells a left _ _ = []

-- The outer loop: the last row, from the row of index `i`.
unfoldable pub last_row : ℕ → List ℕ → List ℕ → List ℕ → List ℕ
last_row i [] bs row = row
last_row i (a ∷ xs) bs row = last_row (i + 1) xs bs ((i + 1) ∷ row_cells a (i + 1) row bs)

unfoldable pub last_cell : List ℕ → ℕ
last_cell [] = 0
last_cell (n ∷ []) = n
last_cell (n ∷ m ∷ ns) = last_cell (m ∷ ns)

unfoldable pub edit_distance : String → String → ℕ
edit_distance a b = last_cell (last_row 0 (chars a) (chars b) (first_row 0 (chars b)))

-- `(input.len() / 3).max(2)`
unfoldable pub threshold : String → ℕ
threshold input = if leb (utf8_len input / 3) 2 then 2 else utf8_len input / 3

unfoldable pub is_similar : String → String → Bool
is_similar input c =
    leb (edit_distance input c) (threshold input) || starts_with c input || starts_with input c

unfoldable pub close_matches : String → List String → List (ℕ × String)
close_matches input [] = []
close_matches input (c ∷ cs) =
    let rest = close_matches input cs in
    if not (c == input) && is_similar input c then (edit_distance input c, c) ∷ rest else rest

-- `sort_by_key` is stable: what comes later goes behind what has the same key.
unfoldable pub insert_by_key : ℕ × String → List (ℕ × String) → List (ℕ × String)
insert_by_key m [] = m ∷ []
insert_by_key m (n ∷ ns) =
    let rest = insert_by_key m ns in if leb m.0 n.0 then m ∷ n ∷ ns else n ∷ rest

unfoldable pub sort_by_key : List (ℕ × String) → List (ℕ × String)
sort_by_key [] = []
sort_by_key (m ∷ ms) = insert_by_key m (sort_by_key ms)

unfoldable pub names_of : List (ℕ × String) → List String
names_of [] = []
names_of (m ∷ ms) = m.1 ∷ names_of ms

unfoldable pub find_similar : String → List String → List String
find_similar input candidates = names_of (sort_by_key (close_matches input candidates))

-- `join(", ")`
unfoldable pub join : List String → String
join [] = ""
join (s ∷ []) = s
join (s ∷ t ∷ ts) = s ++ (", " ++ join (t ∷ ts))

unfoldable pub format_suggestion : List String → String
format_suggestion [] = ""
format_suggestion (s ∷ []) = "\n\n  did you mean: " ++ (s ++ "?")
format_suggestion (s ∷ t ∷ ts) = "\n\n  did you mean one of: " ++ (join (s ∷ t ∷ ts) ++ "?")

pub data ResourceType : Type 0 where
  queue worker cron command : ResourceType

unfoldable pub queue_elsewhere : String → String → Map (List QueueItem) → Option String
queue_elsewhere name current [] = none
queue_elsewhere name current ((k, items) ∷ m) =
    let (ns, qname) = split_scoped_name k in
    let rest = queue_elsewhere name current m in
    if qname == name && not (ns == current) then some ns else rest

unfoldable pub worker_elsewhere : String → String → Map WorkerRecord → Option String
worker_elsewhere name current [] = none
worker_elsewhere name current ((k, w) ∷ m) =
    let rest = worker_elsewhere name current m in
    if w.name == name && not (w.namespace == current) then some w.namespace else rest

unfoldable pub cron_elsewhere : String → String → Map CronRecord → Option String
cron_elsewhere name current [] = none
cron_elsewhere name current ((k, c) ∷ m) =
    let rest = cron_elsewhere name current m in
    if c.name == name && not (c.namespace == current) then some c.namespace else rest

unfoldable pub find_in_other_namespaces :
    ResourceType → String → String → MaterializedState → Option String
find_in_other_namespaces ResourceType.queue name current s =
    queue_elsewhere name current s.queue_items
find_in_other_namespaces ResourceType.worker name current s =
    worker_elsewhere name current s.workers
find_in_other_namespaces ResourceType.cron name current s = cron_elsewhere name current s.crons
find_in_other_namespaces ResourceType.command name current s = none

unfoldable pub format_cross_project_suggestion : String → String → String → String
format_cross_project_suggestion command_prefix name namespace =
    "\n\n  did you mean: "
    ++ (command_prefix ++ (" " ++ (name ++ (" --project " ++ (namespace ++ "?")))))

unfoldable pub cross_project : String → String → Option String → String
cross_project command_prefix name none = ""
cross_project command_prefix name (some ns) = format_cross_project_suggestion command_prefix name ns

unfoldable pub suggest_from_candidates :
    String → String → String → MaterializedState → ResourceType → List String → String
suggest_from_candidates name namespace command_prefix s resource candidates =
    let hint = format_suggestion (find_similar name candidates) in
    if hint == ""
    then cross_project command_prefix name (find_in_other_namespaces resource name namespace s)
    else hint

-- `suggest_for_resource`, with the names that the two closures collect.
unfoldable pub suggest_for_resource :
    String
    → String
    → String
    → MaterializedState
    → ResourceType
    → List String
    → (MaterializedState → List String)
    → String
suggest_for_resource name namespace command_prefix s resource runbook_names state_names =
    let from_runbooks = find_similar name runbook_names in
    let from_state = find_similar name (state_names s) in
    if not (eqb (length from_runbooks) 0)
    then format_suggestion from_runbooks
    else if not (eqb (length from_state) 0)
    then format_suggestion from_state
    else cross_project command_prefix name (find_in_other_namespaces resource name namespace s)
