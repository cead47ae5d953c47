-- ===== src/Replay/Tests.antt =====
-- A replay of three frames in packages/replay/src/session.ts: played, and sought twice.
use rival_hub_broadcast.Prelude.{ℕ, true, ◌≡◌, refl, none, some, [], ◌∷◌, arith, String, length}
use rival_hub_broadcast.Replay.{
  Source, Session, Frame, Seek, rebuilt, first_session, play, tick, begin_seek, end_seek,
  take_result, count_while,
}
use rival_hub_broadcast.Replay.Playback.{Shows, tick-Shows}
use rival_hub_broadcast.Replay.Seeking.{stay, superseded_seek-ignored}

abbrev frame : ℕ → ℕ → Frame String
frame index elapsed = record {
  cursor = record { capture_index = index; sequence = index; scheduled_elapsed_us = elapsed };
  content = "frame";
}

abbrev three_frames : Source String
three_frames = record {
  frames = frame 0 0 ∷ frame 1 5000 ∷ frame 2 900000 ∷ [];
  events = record { id = "start"; capture_index = 0 } ∷ [];
}

abbrev made : Session String
made = first_session three_frames (frame 0 0)

abbrev playing : Session String
playing = record made { is_playing = true; timer = true; wall_anchor_ms = 100 }

play_step : play three_frames made 100 1 1 ≡ some playing
unfolding play length
play_step = refl

shows_second : (tick three_frames playing 110).current_index ≡ some 1
unfolding tick count_while
shows_second = refl

tick-Shows_example : Shows three_frames playing 110 0 (tick three_frames playing 110)
tick-Shows_example = tick-Shows three_frames playing 110 0 refl refl refl (omega arith)

abbrev seeking : Session String
seeking = record made { generation = 1; is_seeking = true }

abbrev seeking_again : Session String
seeking_again = record made { generation = 2; is_seeking = true }

abbrev old : Seek
old = record { generation = 1; target = 2; event_id = none }

abbrev new : Seek
new = record { generation = 2; target = 1; event_id = none }

seek_step : begin_seek three_frames made 2 none ≡ some (seeking, old)
unfolding begin_seek length
seek_step = refl

seek_again_step : begin_seek three_frames seeking 1 none ≡ some (seeking_again, new)
unfolding begin_seek length
seek_again_step = refl

superseded_seek-ignored_example :
    end_seek three_frames seeking_again old (rebuilt (frame 2 900000)) ≡ seeking_again
superseded_seek-ignored_example =
    superseded_seek-ignored three_frames made seeking seeking seeking_again seeking_again old new 2
      1 none none (rebuilt (frame 2 900000)) seek_step stay seek_again_step stay

new_seek_shows :
    (end_seek three_frames seeking_again new (rebuilt (frame 1 5000))).current_index ≡ some 1
unfolding end_seek take_result
new_seek_shows = refl
