-- ===== src/Heos/Pages.antt =====
-- internal/heos/catalog.go (pageBounds) and observations.go (Client.Queue): one page of a queue. The
-- response is given by the fields that are read; a missing parameter is `none`.
pub mod Slices
use heos_control.Prelude.{
  ℕ, ◌+◌, Bool, true, false, ◌&&◌, ◌||◌, not, Option, none, some, List, [], ◌∷◌, String, ◌==◌, ◌!=◌,
  string_eq, int_eq, option_eq, if◌then◌else◌, ltb, leb, nat_beq, length, any, ℤ, pos, negsuc,
}
use heos_control.Heos.Numbers.{atoi}
use heos_control.Heos.Snapshot.{Token, Media, QueuePage}

pub record PageResponse : Type 0 where
  pub returned : Option String
  pub count : Option String
  pub items : List Media
  pub token : Token

-- The total and the start of the next page.
pub record PageBounds : Type 0 where
  pub total : Option ℕ
  pub next : Option ℕ

-- `Params.Get("returned")`, which is empty where it is missing.
unfoldable pub wrong_returned : Option String → ℕ → Bool
unfolding atoi
wrong_returned none n = false
wrong_returned (some s) n = s != "" && atoi s != some (pos n)

-- The end of `pageBounds`, once the total is known to be at least the end of the page.
unfoldable pub bounds_of : Option ℕ → Bool → ℕ → ℕ → ℕ → Option PageBounds
bounds_of none has_count start limit n =
    if nat_beq n 0
    then some (record { total = none; next = none })
    else if not has_count && ltb n limit
    then some (record { total = none; next = none })
    else some (record { total = none; next = some (start + n) })
bounds_of (some total) has_count start limit n =
    if nat_beq n 0
    then (if ltb start total then none else some (record { total = some total; next = none }))
    else if leb total (start + n)
    then some (record { total = some total; next = none })
    else some (record { total = some total; next = some (start + n) })

-- The `count` parameter as a number; a count of 0 is no total.
counted : Option ℤ → ℕ → ℕ → ℕ → Option PageBounds
unfolding bounds_of
counted none start limit n = none
counted (some (negsuc c)) start limit n = none
counted (some (pos c)) start limit n =
    if nat_beq c 0
    then bounds_of none true start limit n
    else if ltb c (start + n)
    then none
    else bounds_of (some c) true start limit n

count_bounds : Option String → ℕ → ℕ → ℕ → Option PageBounds
unfolding counted atoi bounds_of
count_bounds none start limit n = bounds_of none false start limit n
count_bounds (some s) start limit n = counted (atoi s) start limit n

-- `pageBounds`, with the number of items of the response.
unfoldable pub page_bounds : PageResponse → ℕ → ℕ → ℕ → Option PageBounds
unfolding count_bounds wrong_returned
page_bounds r start limit n =
    if ltb limit n
    then none
    else if wrong_returned r.returned n
    then none
    else count_bounds r.count start limit n

page_of : PageResponse → Option PageBounds → Option QueuePage
page_of r none = none
page_of r (some b) =
    some (record { items = r.items; total = b.total; next = b.next; token = r.token })

-- `Client.Queue` for a player that is given, after the response.
unfoldable pub queue_page : PageResponse → ℕ → ℕ → Option QueuePage
unfolding page_of any
queue_page r start limit =
    if ltb 10000 start || ltb limit 1 || ltb 100 limit
    then none
    else if any (λ (m : Media). m.queue_id == "") r.items
    then none
    else page_of r (page_bounds r start limit (length r.items))
