-- ===== src/Tests/Threads.antt =====
-- Two threads: one writes page 7, the other collects it.
use zone_buffer.Base.{ℕ, ◌*◌, ◌+◌, ◌<◌, ◌≤◌, ◌≡◌, ◌⊎◌, refl, [], ◌∷◌, ok}
use zone_buffer.Base.Int.{pos}
use zone_buffer.Zns.{Zns, zone_at}
use zone_buffer.Zns.Write.{select, select_write_zone, scan_open, or_empty}
use zone_buffer.Zns.Writers.{idle, done, chosen, Call, System, turn, choose, start, later}
use zone_buffer.Zns.Writers.Unfilled.{unfilled}
use zone_buffer.Zns.Writers.Waits.{Reach-ends, CanStep, Faults}
use zone_buffer.Tests.{machine}
use zone_buffer.Tests.Controller.{one_page}

abbrev calls : ℕ → Call
calls i = record { cf = pos 0; page_id = 7; frame = 7 ∷ 0 ∷ [] }

abbrev at_rest : Zns machine → System machine
at_rest s = record { zdsm = s; pc = λ i. idle; taken = λ i. 0 }

-- Thread 3 has chosen zone 0.
abbrev one_choice : System machine
one_choice = turn machine 3 (chosen 0) one_page (at_rest one_page)

first_choice : select machine (calls 3).cf 1 one_page ≡ ok (0, one_page)
unfolding select select_write_zone scan_open zone_at or_empty
first_choice = refl

Reach-ends_example :
    (one_choice.taken 3 ≤ 2 * unfilled machine one_page + 4)
    × ((one_choice.pc 3 ≡ done)
        ⊎ (((one_choice.taken 3 < 2 * unfilled machine one_page + 4)
              × CanStep machine calls one_choice 3)
            ⊎ Faults machine calls one_choice 3))
Reach-ends_example =
    Reach-ends machine calls (at_rest one_page) one_choice (λ i. refl) (λ i. refl)
      (later start (choose 3 0 one_page refl first_choice)) 3
