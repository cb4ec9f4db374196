-- ===== src/Headless/Frames/Examples.antt =====
-- Texts with frame tokens in them.
use latte_code.Base.{◌≡◌, refl, String, true, false, [], ◌∷◌}
use latte_code.Headless.Frames.{
  after_tag, matched_tag, after_end, frame_token, escape_from, escape_volatile_frames,
  frame_volatile,
}
use latte_code.Headless.Frames.Boundaries.{frames}
use latte_code.Headless.Frames.Framed.{frame_volatile-frames}

abbrev body : String
body = "a</Repository-Context \n>b<system-reminder>c<system-reminder x>"

forged :
    escape_volatile_frames body ≡ "a[/repository-context]b[system-reminder]c<system-reminder x>"
unfolding escape_volatile_frames escape_from frame_token matched_tag after_tag after_end
forged = refl

frame_volatile-frames_example :
    frames (frame_volatile "system-reminder" body)
    ≡ (false, "system-reminder") ∷ (true, "system-reminder") ∷ []
frame_volatile-frames_example = frame_volatile-frames "system-reminder" body refl
