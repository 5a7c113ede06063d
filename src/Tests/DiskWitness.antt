-- ===== src/Tests/DiskWitness.antt =====
-- The theorems on src/disk_client.h, for a thread that reads a sector while another writes one.
use coursework_file_system.Prelude.{◌≡◌, refl, true, none, some, [], ◌∷◌, arith}
use coursework_file_system.Run.{done}
use coursework_file_system.Table.{lookup, insert, erase}
use coursework_file_system.Memory.{read_range, memcpy}
use coursework_file_system.Drive.{
  Receiver, serve_io, sent, received, read_sector_at, write_sector_at, sector_content, acknowledged,
}
use coursework_file_system.DiskClient.{Client, Op, read, write, constructed, handle, handle_all}
use coursework_file_system.DiskClient.Steps.{
  idle, System, enter_call, enlist_call, post_call, answer_with, enter, enlist, post, answer,
  respond, Reach, start, next,
}
use coursework_file_system.DiskClient.Respond.{responded}
use coursework_file_system.DiskClient.Safe.{Answered, Answered-Reach, Woken, handle_all-Reach}
use coursework_file_system.Tests.PartWitness.{small_receiver}

abbrev reading : Op
reading = read 3 (5 ∷ 5 ∷ [])

abbrev writing : Op
writing = write 6 (8 ∷ 9 ∷ [])

abbrev at_rest : System
at_rest = record {
  client = record { tid_counter = 1; waiting_list = []; transactions = λ t. constructed writing };
  calls = λ t. idle;
  outgoing = [];
  incoming = [];
  receiver = small_receiver;
  entered = 0;
  log = [];
}

abbrev entered_both : System
entered_both = enter_call 1 writing (enter_call 0 reading at_rest)

abbrev listed_both : System
listed_both = enlist_call 0 1 reading (enlist_call 1 2 writing entered_both)

-- The write overtakes the read.
abbrev posted_both : System
posted_both = post_call 0 1 reading (post_call 1 2 writing listed_both)

posted_both-Reach : Reach posted_both
posted_both-Reach =
    next
      (next
        (next
          (next
            (next
              (next
                (start at_rest (record {
                  counter = refl;
                  none_waits = refl;
                  all_idle = λ t. refl;
                  quiet = (refl, refl);
                  no_calls = refl;
                }))
                (enter 0 reading refl))
              (enter 1 writing refl))
            (enlist 1 2 writing refl))
          (enlist 0 1 reading refl))
        (post 1 2 writing refl))
      (post 0 1 reading refl)

abbrev written_drive : Receiver
written_drive =
    let d = small_receiver.drive in
    record {
      drive = record d {
        file_data = 0 ∷ 0 ∷ 0 ∷ 0 ∷ 0 ∷ 0 ∷ 0 ∷ 0 ∷ 0 ∷ 0 ∷ 0 ∷ 0 ∷ 8 ∷ 9 ∷ 0 ∷ 0 ∷ [];
      };
      prev_cylinder_no = 3;
    }

write_served :
    serve_io (write_sector_at 2 6 (8 ∷ 9 ∷ [])) small_receiver
    ≡ done (acknowledged 2, 30) written_drive
unfolding serve_io received memcpy
write_served = refl

read_served :
    serve_io (read_sector_at 1 3) written_drive
    ≡ done (sector_content 1 (0 ∷ 0 ∷ []), 20) (record written_drive { prev_cylinder_no = 1 })
unfolding serve_io sent read_range
read_served = refl

abbrev answered_both : System
answered_both =
    answer_with (read_sector_at 1 3) [] (sector_content 1 (0 ∷ 0 ∷ []))
      (record written_drive { prev_cylinder_no = 1 })
      (answer_with (write_sector_at 2 6 (8 ∷ 9 ∷ [])) (read_sector_at 1 3 ∷ []) (acknowledged 2)
        written_drive posted_both)

answered_both-Reach : Reach answered_both
answered_both-Reach =
    next
      (next posted_both-Reach (
        answer (write_sector_at 2 6 (8 ∷ 9 ∷ [])) (read_sector_at 1 3 ∷ []) (acknowledged 2) 30
          written_drive refl write_served))
      (answer (read_sector_at 1 3) [] (sector_content 1 (0 ∷ 0 ∷ [])) 20
        (record written_drive { prev_cylinder_no = 1 }) refl read_served)

abbrev woken_both : System
woken_both =
    responded 0 1 (record { writeback_data = some (0 ∷ 0 ∷ []); sig_wake = true }) []
      (responded 1 2 (record { writeback_data = none; sig_wake = true })
        (sector_content 1 (0 ∷ 0 ∷ []) ∷ []) answered_both)

woken_both-Reach : Reach woken_both
unfolding handle lookup insert erase
woken_both-Reach =
    next
      (next answered_both-Reach
        (respond (acknowledged 2) (sector_content 1 (0 ∷ 0 ∷ []) ∷ []) _ refl refl))
      (respond (sector_content 1 (0 ∷ 0 ∷ [])) [] _ refl refl)

handle_all-Reach_example :
    (c : Client) × (handle_all
        (acknowledged 2 ∷ sector_content 1 (0 ∷ 0 ∷ []) ∷ [])
        answered_both.client
      ≡ done tt c)
    × Woken answered_both c
handle_all-Reach_example = handle_all-Reach answered_both-Reach (omega arith)

Answered-Reach_example : Answered woken_both 0 1 reading
Answered-Reach_example = Answered-Reach 0 1 reading woken_both-Reach (omega arith) refl refl
