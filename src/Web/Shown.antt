-- ===== src/Web/Shown.antt =====
-- The temperature that /metrics shows.
use edge_omni.Common.{
  ℕ, ◌+◌, ◌*◌, ◌/◌, ◌%◌, ◌^◌, ◌≤◌, ◌≡◌, refl, sym, ◌∙◌, ap, List, [], ◌∷◌, ◌++◌, take, drop,
}
use mathlib.Core.List.{append_assoc}
use edge_omni.Common.Int.{ℤ, pos, negsuc}
use edge_omni.Common.Decimal.{digits_of, magnitude}
use edge_omni.Common.Text.{bytes}
use edge_omni.Common.Format.{
  Piece, text, number, thousandths, string, render, print_tenths, tenths_of, tenths_near,
}
use edge_omni.Web.Pages.{Readings, metrics_format}

render-append : (ps qs : List Piece) → render (ps ++ qs) ≡ render ps ++ render qs
unfolding render
render-append [] qs = refl
render-append (text s ∷ ps) qs =
    ap (◌++◌ (bytes s)) (render-append ps qs) ∙ sym (append_assoc (bytes s) (render ps) (render qs))
render-append (number v ∷ ps) qs =
    ap (◌++◌ _) (render-append ps qs) ∙ sym (append_assoc _ (render ps) (render qs))
render-append (thousandths v ∷ ps) qs =
    ap (◌++◌ _) (render-append ps qs) ∙ sym (append_assoc _ (render ps) (render qs))
render-append (string t ∷ ps) qs =
    ap (◌++◌ t) (render-append ps qs) ∙ sym (append_assoc t (render ps) (render qs))

-- The sign, the whole degrees, the point and a tenth.
abbrev pub shown : ℤ → ℕ → List ℕ
shown (pos n) t = digits_of 10 (t / 10) ++ b'.' ∷ digits_of 1 (t % 10)
shown (negsuc n) t = b'-' ∷ digits_of 10 (t / 10) ++ b'.' ∷ digits_of 1 (t % 10)

print_tenths-shown : (v : ℤ) → print_tenths v ≡ shown v (tenths_of (magnitude v))
unfolding print_tenths
print_tenths-shown (pos n) = refl
print_tenths-shown (negsuc n) = refl

-- For a temperature that an int holds, /metrics shows it, between its label and the end of the
-- line, with its sign, whole degrees and a tenth, and what is shown is within 0.05 degrees of it.
pub temperature_shown :
    (r : Readings)
    → magnitude r.temp_raw ≤ 2 ^ 31
    → (before after : List ℕ) × (t : ℕ) × (render (metrics_format r)
        ≡ before
          ++ (bytes "sensor_temperature_celsius{id=\"sht30\"} "
              ++ (shown r.temp_raw t ++ (b'\n' ∷ after))))
      × (100 * t ≤ magnitude r.temp_raw + 50)
      × (magnitude r.temp_raw ≤ 100 * t + 50)
unfolding metrics_format render bytes
temperature_shown r h =
    let ps : List Piece = take 14 (metrics_format r) in
    let tail : List ℕ = render (drop 16 (metrics_format r)) in
    let label : List ℕ = bytes "sensor_temperature_celsius{id=\"sht30\"} " in
    let (low, high) = tenths_near (magnitude r.temp_raw) h in
    (
      render ps,
      drop 1 tail,
      tenths_of (magnitude r.temp_raw),
      render-append ps (drop 14 (metrics_format r))
          ∙ ap (λ t. render ps ++ (label ++ (t ++ tail))) (print_tenths-shown r.temp_raw),
      low,
      high,
    )
