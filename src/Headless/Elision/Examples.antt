-- ===== src/Headless/Elision/Examples.antt =====
-- The elision of a short history.
use latte_code.Base.{◌≡◌, refl, List, map}
use latte_code.Headless.Fixtures.{Value, json, rounds}
use latte_code.Headless.History.{Segment}
use latte_code.Headless.History.Scan.{scan_history_segments}
use latte_code.Headless.Elision.{elide_prefix, replace_from}
use latte_code.Headless.Elision.Outline.{outline, from_boundary, elide_prefix-outline}
use latte_code.Headless.Elision.Sequences.{ElidedUpTo, recorded_sequences, elide-scan}

replaced : replace_from "ab" "c" 0 "xababyaz" ≡ "xccyaz"
unfolding replace_from
replaced = refl

abbrev history : List (Segment Value)
history = scan_history_segments json rounds

elide_prefix-outline_example :
    (map outline (elide_prefix json history 1).0 ≡ map outline history)
    × (from_boundary 1 (elide_prefix json history 1).0 ≡ from_boundary 1 history)
elide_prefix-outline_example = elide_prefix-outline json history 1

elide-scan_example :
    ((elide_prefix json history 1).1 ≡ recorded_sequences 1 history)
    × ElidedUpTo json 1 (elide_prefix json history 1).0
elide-scan_example = elide-scan json rounds 1
