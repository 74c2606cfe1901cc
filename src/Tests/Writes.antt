-- ===== src/Tests/Writes.antt =====
-- A write of a new volume that the connection accepts or refuses, and a queue of two pages.
use heos_control.Prelude.{
  ℕ, zero, suc, ◌≡◌, ◌⊎◌, refl, true, false, none, some, List, [], ◌∷◌, arith, length, take, drop,
  pos, any,
}
use heos_control.Heos.Numbers.{atoi}
use heos_control.Heos.Snapshot.{Media}
use heos_control.Heos.Pages.{PageResponse, wrong_returned}
use heos_control.Heos.Pages.Slices.{IsHonest, slice}
use heos_control.Control.Queue.Complete.{complete_queue}
use heos_control.Control.Queue.Complete.Whole.{fetch, complete_queue-whole}
use heos_control.Control.Write.{Execution, Reply, Observed, read, write_replied}
use heos_control.Control.Write.Laws.{Confirmed, Doubted, Refused, write_replied-cases}
use heos_control.Tests.Fixtures.{playing, token, track, config}
use heos_control.Tests.Attributions.{idle, louder}

abbrev pub execution : Execution
execution = record {
  link = idle;
  bounded = false;
  members = [];
  ordered = none;
  unconfirmed = false;
  rejected_write = false;
  confirmed = 0;
}

abbrev pub louder_seen : Observed
louder_seen = read (record playing { volume = some 30 })

write_replied-cases_example :
    Confirmed execution none (
      write_replied config none read
        (λ a. a)
        execution
        louder
        playing
        louder_seen
        (Reply.accepted token))
    ⊎ (Doubted execution (
          write_replied config none read
            (λ a. a)
            execution
            louder
            playing
            louder_seen
            (Reply.accepted token))
        ⊎ Refused execution (Reply.accepted token) (
            write_replied config none read
              (λ a. a)
              execution
              louder
              playing
              louder_seen
              (Reply.accepted token)))
write_replied-cases_example =
    write_replied-cases config none read louder (λ a. a) execution playing louder_seen
      (Reply.accepted token)

counted_once :
    (write_replied config none read
      (λ a. a)
      execution
      louder
      playing
      louder_seen
      (Reply.accepted token)).1.confirmed
    ≡ 1
unfolding write_replied
counted_once = refl

abbrev copies : ℕ → Media → List Media
copies zero m = []
copies (suc n) m = m ∷ copies n m

abbrev long_queue : List Media
long_queue = copies 101 (track "1" "7")

abbrev respond : ℕ → PageResponse
respond n = record {
  returned = none;
  count = some "101";
  items = take 100 (drop n long_queue);
  token = token;
}

long_parsed : atoi "101" ≡ some (pos (length long_queue))
unfolding atoi
long_parsed = refl

respond-IsHonest : IsHonest respond long_queue token
unfolding any wrong_returned
respond-IsHonest = record {
  items = λ n. refl;
  returned = λ n. refl;
  text = "101";
  count = λ n. refl;
  parsed = long_parsed;
  same_token = λ n. refl;
  ids = refl;
}

complete_queue-whole_example :
    complete_queue
      (fetch respond)
      true
      token
      (record playing { token = token; queue = slice long_queue token 0 })
    ≡ some record playing {
      token = token;
      queue = record (slice long_queue token 0) { items = long_queue; next = none };
    }
complete_queue-whole_example =
    complete_queue-whole respond long_queue token respond-IsHonest (omega arith) playing
      (omega arith)
