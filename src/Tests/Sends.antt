-- ===== src/Tests/Sends.antt =====
-- pending and queries/useUpdateLight.ts: a slider that is moved while its first PATCH is in flight.
use sharpn.Prelude.{ℕ, ◌≡◌, refl, false, none, some, [], ◌∷◌, ◌++◌, str_eq, if◌then◌else◌}
use sharpn.Prelude.Maps.{lookup, insert, delete}
use sharpn.Command.{LightCommand}
use sharpn.Codec.{rejected, success}
use sharpn.Console.Pending.{Pending, use_pending_command}
use sharpn.Console.Pending.Clearing.{unless_read_after, lookup-use_pending_command}
use sharpn.Console.Sending.{
  commands_equal, fire, settle, Patch, Sender, quiet, send, on_settled, acknowledged,
}
use sharpn.Console.Sending.InFlight.{
  Run, start, later, sends, settles, arrived, flying, one_if, Run-IsSingle,
}
use sharpn.Console.Sending.LastAsked.{WasSent}
use sharpn.Console.Sending.LastAsked.Running.{Run-WasSent}

abbrev at_level : ℕ → LightCommand
at_level n = record {
  on = none;
  brightness = some (record { negative = false; digits = n; places = 0 });
  color_temperature_mirek = none;
  color_xy = none;
}

-- Ten is sent, twenty and thirty are held in turn, ten is answered and thirty is sent.
abbrev moved : Sender
moved =
    send 3 "lamp" (at_level 30) (send 2 "lamp" (at_level 20) (send 1 "lamp" (at_level 10) quiet))

abbrev ten : Patch
ten = record { number = 1; light_id = "lamp"; command = at_level 10; sent_at = 1 }

moved-outstanding : moved.outstanding ≡ [] ++ ten ∷ []
unfolding send fire lookup insert
moved-outstanding = refl

abbrev answered : Sender
answered = on_settled (acknowledged success) 4 ten (arrived [] [] moved)

abbrev thirty : Patch
thirty = record { number = 2; light_id = "lamp"; command = at_level 30; sent_at = 4 }

answered-outstanding : answered.outstanding ≡ [] ++ thirty ∷ []
unfolding send fire on_settled settle commands_equal lookup insert delete
answered-outstanding = refl

moving : Run "lamp" moved
moving =
    later
      (later (later start (sends 1 (at_level 10) quiet))
        (sends 2 (at_level 20) (send 1 "lamp" (at_level 10) quiet)))
      (sends 3 (at_level 30) (send 2 "lamp" (at_level 20) (send 1 "lamp" (at_level 10) quiet)))

answering : Run "lamp" answered
answering = later moving (settles [] [] ten (acknowledged success) 4 moved moved-outstanding)

abbrev done : Sender
done = on_settled (acknowledged rejected) 5 thirty (arrived [] [] answered)

finishing : Run "lamp" done
finishing =
    later answering (settles [] [] thirty (acknowledged rejected) 5 answered answered-outstanding)

done-asked : lookup "lamp" done.asked ≡ some (at_level 30)
unfolding send fire on_settled settle commands_equal lookup insert delete
done-asked = refl

done-flying : flying "lamp" done.outstanding ≡ 0
unfolding send fire on_settled settle commands_equal lookup insert delete
done-flying = refl

Run-IsSingle_example : flying "lamp" moved.outstanding ≡ one_if (lookup "lamp" moved.in_flight)
Run-IsSingle_example = Run-IsSingle moving "lamp"

Run-WasSent_example : WasSent "lamp" (at_level 30) done
Run-WasSent_example = Run-WasSent "lamp" (at_level 30) finishing done-asked done-flying

-- One hook is asked for two Lights: the callbacks of the first call are dropped, the Light stays in
-- flight with nothing outstanding, and what is asked of it next is held and not sent.
abbrev desk_and_lamp : Sender
desk_and_lamp = send 2 "desk" (at_level 20) (send 1 "lamp" (at_level 10) quiet)

desk : Patch
desk = record { number = 2; light_id = "desk"; command = at_level 20; sent_at = 2 }

abbrev both_settled : Sender
both_settled =
    on_settled (acknowledged success) 4 desk (
      arrived [] []
        (on_settled (acknowledged success) 3 ten (arrived (desk ∷ []) [] desk_and_lamp)))

lamp-stuck : (lookup "lamp" both_settled.in_flight ≡ some none) × (both_settled.outstanding ≡ [])
unfolding send fire on_settled settle commands_equal lookup insert delete desk
lamp-stuck = (refl, refl)

abbrev pending : Pending
pending = ("lamp", record { light_id = "lamp"; command = at_level 30; sent_at = 4 }) ∷ []

lookup-use_pending_command_example : lookup "lamp" (use_pending_command "lamp" (some 5) pending) ≡ (
    if str_eq "lamp" "lamp"
    then unless_read_after (some 5) (lookup "lamp" pending)
    else lookup "lamp" pending)
lookup-use_pending_command_example = lookup-use_pending_command "lamp" "lamp" (some 5) pending
