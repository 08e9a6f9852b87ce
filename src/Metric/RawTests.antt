-- ===== src/Metric/RawTests.antt =====
-- Tests and examples for pkg/metric/raw_points.go.
use mango_hub.Base.{ℕ, ◌≡◌, refl, some, List, [], ◌∷◌, arith}
use mango_hub.Base.Int.{ℤ, pos, negsuc}
use mango_hub.Metric.Raw.{RawSample, no_samples, append_samples, decode, put_uvarint}
use mango_hub.Metric.Raw.Decode.{compress, decode-append_samples}
use mango_hub.Metric.Raw.Sorted.{find}
use mango_hub.Metric.Raw.Window.{append, prune_samples, replace_compressed}
use mango_hub.Metric.Raw.Merged.{IsMerged, append-IsMerged}
use mango_hub.Metric.Raw.Replaced.{replace_compressed-IsMerged}
use mango_hub.Metric.Raw.Pruned.{dropped, kept, prune_samples-kept}

abbrev at : ℤ → ℕ → RawSample
at t v = record { timestamp = t; value = v; label_id = 300 }

abbrev three : List RawSample
three = at (negsuc 4) 7 ∷ at (pos 10) 8 ∷ at (pos 1000) 9 ∷ []

abbrev late : List RawSample
late = at (pos 10) 1 ∷ at (pos 20) 2 ∷ []

bytes_of_300 : put_uvarint 300 ≡ 0xac ∷ 0x02 ∷ []
unfolding put_uvarint
bytes_of_300 = refl

decode-append_samples_example : decode (append_samples three no_samples) ≡ some three
decode-append_samples_example = decode-append_samples three (omega arith)

append-IsMerged_example :
    (m : List RawSample) × (append late (compress three) ≡ some (compress m))
    × IsMerged three late m
append-IsMerged_example = append-IsMerged three late (omega arith) (omega arith) (omega arith)

prune_samples-kept_example :
    prune_samples (pos 5) (compress three)
    ≡ some (dropped (pos 5) three, compress (kept (pos 5) three))
prune_samples-kept_example = prune_samples-kept (pos 5) three (omega arith) (omega arith)

replace_compressed-IsMerged_example :
    (m : List RawSample) × (replace_compressed (at (pos 10) 1) (compress three)
      ≡ some (find (pos 10) three, compress m))
    × IsMerged three (at (pos 10) 1 ∷ []) m
replace_compressed-IsMerged_example =
    replace_compressed-IsMerged (at (pos 10) 1) three (omega arith) (omega arith)
