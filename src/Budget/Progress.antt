-- ===== src/Budget/Progress.antt =====
-- The detector of internal/budget/progress.go, and a description of it over the whole history of
-- observations.
use ai4se_coding_agent_harne.Prelude.{
  ℕ, suc, ◌≤◌, ◌<◌, String, ◌==◌, eq_iff, eq_refl, ℤ, pos, negsuc, Bool, false, not, ◌&&◌, ◌||◌,
  List, [], ◌∷◌, leb, if◌then◌else◌, ◌≡◌, refl, ◌∙◌, ◌↔◌, arith,
}

pub data ProgressOutcome : Type 0 where
  continue warning stop : ProgressOutcome

pub record ProgressDetector : Type 0 where
  pub threshold : ℕ
  pub last_fingerprint : String
  pub last_diff_digest : String
  pub consecutive : ℕ

at_least_one : ℤ → ℕ
at_least_one (pos n) = if leb n 1 then 1 else n
at_least_one (negsuc n) = 1

unfoldable pub new_progress_detector : ℤ → ProgressDetector
unfolding at_least_one
new_progress_detector threshold = record {
  threshold = at_least_one threshold;
  last_fingerprint = "";
  last_diff_digest = "";
  consecutive = 0;
}

unfoldable pub observe : ProgressDetector → String → String → ProgressDetector × ProgressOutcome
observe p fingerprint diff_digest =
    if fingerprint == "" || diff_digest == ""
    then (record p { last_fingerprint = ""; last_diff_digest = ""; consecutive = 0 }, continue)
    else if fingerprint == p.last_fingerprint && diff_digest == p.last_diff_digest
    then (
      record p { consecutive = suc p.consecutive },
      if leb p.threshold (suc p.consecutive) then stop else continue,
    )
    else let outcome =
        if fingerprint == p.last_fingerprint && not (p.last_diff_digest == "")
        then warning
        else continue in
      (
        record p {
          last_fingerprint = fingerprint;
          last_diff_digest = diff_digest;
          consecutive = 1;
        },
        if leb p.threshold 1 then stop else outcome,
      )

-- A fingerprint and a diff digest.
abbrev pub Sighting : Type 0
Sighting = String × String

abbrev pub is_blank : Sighting → Bool
is_blank (f, d) = f == "" || d == ""

abbrev same : Sighting → Sighting → Bool
same (f, d) (g, e) = f == g && d == e

-- The detector after a history, the newest sighting first.
unfoldable pub watch : ℤ → List Sighting → ProgressDetector
watch threshold [] = new_progress_detector threshold
watch threshold ((f, d) ∷ h) = (observe (watch threshold h) f d).0

-- How many of the newest sightings are equal to `o`, one after another.
pub run_length : Sighting → List Sighting → ℕ
run_length o [] = 0
run_length o (x ∷ h) = let rest = run_length o h in if same o x then suc rest else 0

-- What the detector remembers of a history: the newest sighting and how long it has been repeated,
-- or nothing where the newest was blank.
memory : List Sighting → Sighting × ℕ
memory [] = (("", ""), 0)
memory (o ∷ h) = if is_blank o then (("", ""), 0) else (o, run_length o (o ∷ h))

abbrev recalls : ProgressDetector → Sighting × ℕ
recalls p = ((p.last_fingerprint, p.last_diff_digest), p.consecutive)

observe-threshold :
    (p : ProgressDetector) (f d : String) → (observe p f d).0.threshold ≡ p.threshold
unfolding observe
observe-threshold p f d = ground arith

watch-threshold :
    (t : ℤ) (h : List Sighting) → (watch t h).threshold ≡ (new_progress_detector t).threshold
unfolding watch
watch-threshold t [] = refl
watch-threshold t ((f, d) ∷ h) = observe-threshold (watch t h) f d ∙ watch-threshold t h

threshold_pos : (t : ℤ) → 0 < (new_progress_detector t).threshold
unfolding new_progress_detector
threshold_pos t = ground arith

observe-memory :
    (p : ProgressDetector) (f d : String) (h : List Sighting)
    → recalls p ≡ memory h
    → recalls (observe p f d).0 ≡ memory ((f, d) ∷ h)
unfolding observe run_length memory
observe-memory p f d [] r = ground (arith, eq_refl f, eq_refl d, eq_iff f "", eq_iff d "")
observe-memory p f d ((g, e) ∷ h) r = ground (
  arith,
  eq_refl f,
  eq_refl d,
  eq_iff f "",
  eq_iff d "",
  eq_iff g "",
  eq_iff e "",
  eq_iff f g,
  eq_iff d e,
)

watch-memory : (t : ℤ) (h : List Sighting) → recalls (watch t h) ≡ memory h
unfolding watch new_progress_detector memory
watch-memory t [] = refl
watch-memory t ((f, d) ∷ h) = observe-memory (watch t h) f d h (watch-memory t h)

observe-stop :
    (p : ProgressDetector) (f d : String) (h : List Sighting)
    → recalls p ≡ memory h
    → ((observe p f d).1 ≡ stop)
      ↔ ((is_blank (f, d) ≡ false) × (p.threshold ≤ run_length (f, d) ((f, d) ∷ h)))
unfolding observe run_length memory
observe-stop p f d [] r = ground (arith, eq_refl f, eq_refl d, eq_iff f "", eq_iff d "")
observe-stop p f d ((g, e) ∷ h) r = ground (
  arith,
  eq_refl f,
  eq_refl d,
  eq_iff f "",
  eq_iff d "",
  eq_iff g "",
  eq_iff e "",
  eq_iff f g,
  eq_iff d e,
)

-- After any history, the next sighting stops the run exactly when neither part of it is empty and
-- it ends a row of equal sightings at least as long as the threshold (at least one).
pub watch-stop :
    (t : ℤ) (h : List Sighting) (f d : String)
    → ((observe (watch t h) f d).1 ≡ stop) ↔ (
        (is_blank (f, d) ≡ false)
        × ((new_progress_detector t).threshold ≤ run_length (f, d) ((f, d) ∷ h)))
watch-stop t h f d = rw (← watch-threshold t h) (observe-stop (watch t h) f d h (watch-memory t h))
