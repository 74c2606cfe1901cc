-- ===== src/Control/Queue/Complete.antt =====
-- internal/control/ownership.go (completeQueue): the other pages of a queue. The device is a function
-- from the start of a page to what `Client.Queue` returns.
pub mod Whole
use heos_control.Prelude.{
  ℕ, zero, suc, ◌+◌, Bool, true, false, ◌&&◌, ◌||◌, not, Option, none, some, List, [], ◌∷◌, ◌++◌,
  ◌==◌, ◌!=◌, nat_eq, option_eq, if◌then◌else◌, ltb, leb, nat_beq, length, is_empty,
}
use heos_control.Heos.Snapshot.{Token, Media, QueuePage, Snapshot, token_eq}

abbrev pub over_total : Option ℕ → Bool
over_total none = true
over_total (some total) = ltb 10000 total

-- The checks on a page that was read.
unfoldable pub page_refused : Token → QueuePage → QueuePage → Bool
page_refused token q page =
    page.token != token
    || q.total != page.total
    || is_empty page.items
    || ltb 10000 (length q.items + length page.items)

-- The loop of `completeQueue`, with the number of pages that may still be read. Every error is `none`.
unfoldable pub complete_from :
    (ℕ → Option QueuePage) → ℕ → Token → QueuePage → Option ℕ → Option QueuePage
complete_from fetch pages token q none =
    if q.total == some (length q.items) then some (record q { next = none }) else none
complete_from fetch zero token q (some n) = none
complete_from fetch (suc pages) token q (some n) =
    let go = λ (page : QueuePage).
      complete_from fetch pages token (record q { items = q.items ++ page.items }) page.next in
    if over_total q.total || n != length q.items then none else elim (fetch n) [
      | none ↦ none
      | some page ↦ elim (page_refused token q page) [ true ↦ none | false ↦ go page ]
    ]

finished : Bool → Token → Snapshot → Option QueuePage → Option Snapshot
finished connected current s none = none
finished connected current s (some q) =
    if not connected || current != s.token then none else some (record s { queue = q })

complete_rest : (ℕ → Option QueuePage) → Bool → Token → Snapshot → Option ℕ → Option Snapshot
unfolding complete_from finished
complete_rest fetch connected current s none = some s
complete_rest fetch connected current s (some n) =
    finished connected current s (complete_from fetch 99 s.token s.queue (some n))

-- `completeQueue`; `connected` and `current` are the client's view at the end.
unfoldable pub complete_queue : (ℕ → Option QueuePage) → Bool → Token → Snapshot → Option Snapshot
unfolding complete_rest
complete_queue fetch connected current s = complete_rest fetch connected current s s.queue.next
