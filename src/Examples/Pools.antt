-- ===== src/Examples/Pools.antt =====
-- A pool under the main loop.
use esskyuehl.Prelude.{ℕ, ◌≡◌, refl, true, [], ◌∷◌, none, some, codes, length}
use esskyuehl.State.{Conn, World, Env, sqlite}
use esskyuehl.Object.{blank}
use esskyuehl.Connect.{connect}
use esskyuehl.Events.{
  call_complete, next, next_step, rebalance, take_query, give_query, take_first_query,
  take_head_query, step,
}
use esskyuehl.Events.Members.{ups}
use esskyuehl.Pool.{blank_pool}
use esskyuehl.Events.Sound.Steps.{Keeps}
use esskyuehl.Events.Turns.{Reach, here, more, connects, ends_thread, calls, queries, turns_to}
use esskyuehl.Events.Sound.Turns.{Reach-Counts}
use esskyuehl.Events.Ledger.{total, sent_texts}
use esskyuehl.Events.Ledger.Callbacks.{asking, asking-KeepsBooks}
use esskyuehl.Events.Ledger.Turns.{Reach-total}
use esskyuehl.Query.{query}
use esskyuehl.Examples.{quiet, ready, alone, in_pool}

quiet-Keeps : Keeps quiet
quiet-Keeps = record {
  connect_sound = λ cb p w s. s;
  connect_ready = λ cb p w r. r;
  result_sound = λ cb r p w s. s;
  result_ready = λ cb r p w h. h;
}

abbrev new_member : ℕ → Conn
new_member i = record blank { kind = sqlite; pool_member = true; pool_id = i }

-- A new pool of two members with the second one in hand.
abbrev new_pool : World
new_pool = record (alone (new_member 1)) { before = new_member 0 ∷ [] }

abbrev connecting : World
connecting = (connect quiet (some (codes "f.db")) [] none new_pool).0

path : Reach quiet (new_pool, none) (step quiet call_complete connecting)
path =
    more
      (more (more here (connects (some (codes "f.db")) [] none new_pool)) (ends_thread connecting))
      (calls call_complete connecting)

Reach-Counts_example :
    (step quiet call_complete connecting).0.ep.e_connected
    ≡ ups (step quiet call_complete connecting).0
Reach-Counts_example =
    Reach-Counts quiet quiet-Keeps new_pool (step quiet call_complete connecting).0
      (step quiet call_complete connecting).1 ((refl, refl, refl), ((refl, refl, refl), tt)) refl
      path

-- A connected pool of one member.
abbrev up_again : World
up_again = record (alone (in_pool ready)) {
  ep = record blank_pool { size = 1; e_connected = 1; connected = true };
}

-- Behind each result the user's callback makes one more query, of no text.
abbrev asker : Env
asker = asking quiet (λ cb. none) (λ cb. some [])

-- The member in hand is busy behind its first query, so that the second one waits until the other
-- member has nothing to do.
abbrev up_pair : World
up_pair = record up_again { before = in_pool ready ∷ [] }

abbrev asked_once : World
asked_once = (query asker none (some (codes "a")) up_pair).0

abbrev asked_twice : World
asked_twice = (query asker none (some (codes "bc")) asked_once).0

abbrev turned : World
turned = record asked_twice { before = []; e = in_pool ready; after = asked_twice.e ∷ [] }

abbrev at_next : World
at_next = (step asker call_complete turned).0

unfoldable moved_path : Reach asker (up_pair, none) (step asker next at_next)
unfolding query step
moved_path =
    more
      (more
        (more
          (more
            (more (more here (queries none (some (codes "a")) up_pair))
              (queries none (some (codes "bc")) asked_once))
            (turns_to [] (in_pool ready) (asked_twice.e ∷ []) asked_twice refl))
          (ends_thread turned))
        (calls call_complete turned))
      (calls next at_next)

-- A text weighs its length.
Reach-total_example : total length (step asker next at_next).0 ≡ 3
unfolding moved_path query step
Reach-total_example =
    Reach-total length asker
      (asking-KeepsBooks length quiet (λ cb. none) (λ cb. some []) (λ cb. refl) (λ cb. refl))
      up_pair (step asker next at_next).0 (step asker next at_next).1 moved_path (refl, (refl, tt))

moved_acts : sent_texts (step asker next at_next).0.acts ≡ codes "bc" ∷ codes "a" ∷ []
unfolding step next_step query rebalance take_query give_query take_first_query take_head_query
moved_acts = refl
