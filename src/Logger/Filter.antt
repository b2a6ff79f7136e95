-- ===== src/Logger/Filter.antt =====
-- The logger prints, in order, the records that reach its threshold.
use mathlib.Core.List.{append_assoc, append-nil}
use network_application.Base.{
  ◌≡◌, refl, ap, ◌∙◌, ◌⊎◌, inl, inr, List, [], ◌∷◌, ◌++◌, true, false, if◌then◌else◌, Bool, ◌||◌,
  false, Bool-cases,
}
use network_application.Logger.{LogLevel, trace, debug, info, warn, error, critical, tests, no_log}
use network_application.Logger.{Entry, Logger, is_shown, log, set_level, log_all}

-- The records of a list that a threshold lets through.
unfoldable pub shown : LogLevel → List Entry → List Entry
shown min [] = []
shown min (e ∷ es) = if is_shown min e.level then e ∷ shown min es else shown min es

-- After any calls of Logger::log the printed records are those of before, followed by the calls whose
-- level reaches the threshold, in call order.
pub log_all-filter :
    (g : Logger) (es : List Entry) → (log_all g es).printed ≡ g.printed ++ shown g.min_level es
unfolding log_all log shown
log_all-filter g [] = simp append-nil
log_all-filter g (e ∷ es) =
    log_all-filter (log g e) es ∙ split (Bool-cases (is_shown g.min_level e.level))
  where
    split :
        (is_shown g.min_level e.level ≡ true) ⊎ (is_shown g.min_level e.level ≡ false)
        → (log g e).printed ++ shown (log g e).min_level es
          ≡ g.printed ++ shown g.min_level (e ∷ es)
    split (inl h) = rw h (append_assoc g.printed (e ∷ []) (shown g.min_level es))
    split (inr h) = rw h

is_shown-no_log : (level : LogLevel) → is_shown no_log level ≡ true
unfolding is_shown
is_shown-no_log trace = refl
is_shown-no_log _ = refl

shown-no_log : (es : List Entry) → shown no_log es ≡ es
unfolding shown
shown-no_log [] = refl
shown-no_log (e ∷ es) = rw (is_shown-no_log e.level) (ap (◌∷◌ e) (shown-no_log es))

-- With the threshold NoLog every call is printed, whatever its level.
pub log_all-no_log :
    (g : Logger) (es : List Entry) → (log_all (set_level g no_log) es).printed ≡ g.printed ++ es
unfolding set_level
log_all-no_log g es =
    log_all-filter (record g { min_level = no_log }) es ∙ ap (◌++◌ g.printed) (shown-no_log es)

-- The levels that the logger of a threshold prints, written out.
unfoldable pub levels_from : LogLevel → List LogLevel
levels_from debug = debug ∷ info ∷ warn ∷ error ∷ critical ∷ []
levels_from info = info ∷ warn ∷ error ∷ critical ∷ []
levels_from warn = warn ∷ error ∷ critical ∷ []
levels_from error = error ∷ critical ∷ []
levels_from critical = critical ∷ []
levels_from no_log = trace ∷ debug ∷ info ∷ warn ∷ error ∷ critical ∷ tests ∷ no_log ∷ []
levels_from _ = trace ∷ debug ∷ info ∷ warn ∷ error ∷ critical ∷ tests ∷ []

unfoldable pub same_level : LogLevel → LogLevel → Bool
same_level trace trace = true
same_level debug debug = true
same_level info info = true
same_level warn warn = true
same_level error error = true
same_level critical critical = true
same_level tests tests = true
same_level no_log no_log = true
same_level _ _ = false

unfoldable pub is_among : LogLevel → List LogLevel → Bool
unfolding same_level
is_among level [] = false
is_among level (l ∷ ls) = same_level level l || is_among level ls

-- The entries whose levels are in the list of the threshold.
unfoldable pub among : List LogLevel → List Entry → List Entry
unfolding is_among
among ls [] = []
among ls (e ∷ es) = if is_among e.level ls then e ∷ among ls es else among ls es

is_shown-levels_from :
    (min level : LogLevel) → is_shown min level ≡ is_among level (levels_from min)
unfolding is_shown is_among same_level levels_from
is_shown-levels_from trace trace = refl
is_shown-levels_from trace debug = refl
is_shown-levels_from trace info = refl
is_shown-levels_from trace warn = refl
is_shown-levels_from trace error = refl
is_shown-levels_from trace critical = refl
is_shown-levels_from trace tests = refl
is_shown-levels_from trace no_log = refl
is_shown-levels_from debug trace = refl
is_shown-levels_from debug debug = refl
is_shown-levels_from debug info = refl
is_shown-levels_from debug warn = refl
is_shown-levels_from debug error = refl
is_shown-levels_from debug critical = refl
is_shown-levels_from debug tests = refl
is_shown-levels_from debug no_log = refl
is_shown-levels_from info trace = refl
is_shown-levels_from info debug = refl
is_shown-levels_from info info = refl
is_shown-levels_from info warn = refl
is_shown-levels_from info error = refl
is_shown-levels_from info critical = refl
is_shown-levels_from info tests = refl
is_shown-levels_from info no_log = refl
is_shown-levels_from warn trace = refl
is_shown-levels_from warn debug = refl
is_shown-levels_from warn info = refl
is_shown-levels_from warn warn = refl
is_shown-levels_from warn error = refl
is_shown-levels_from warn critical = refl
is_shown-levels_from warn tests = refl
is_shown-levels_from warn no_log = refl
is_shown-levels_from error trace = refl
is_shown-levels_from error debug = refl
is_shown-levels_from error info = refl
is_shown-levels_from error warn = refl
is_shown-levels_from error error = refl
is_shown-levels_from error critical = refl
is_shown-levels_from error tests = refl
is_shown-levels_from error no_log = refl
is_shown-levels_from critical trace = refl
is_shown-levels_from critical debug = refl
is_shown-levels_from critical info = refl
is_shown-levels_from critical warn = refl
is_shown-levels_from critical error = refl
is_shown-levels_from critical critical = refl
is_shown-levels_from critical tests = refl
is_shown-levels_from critical no_log = refl
is_shown-levels_from tests trace = refl
is_shown-levels_from tests debug = refl
is_shown-levels_from tests info = refl
is_shown-levels_from tests warn = refl
is_shown-levels_from tests error = refl
is_shown-levels_from tests critical = refl
is_shown-levels_from tests tests = refl
is_shown-levels_from tests no_log = refl
is_shown-levels_from no_log trace = refl
is_shown-levels_from no_log debug = refl
is_shown-levels_from no_log info = refl
is_shown-levels_from no_log warn = refl
is_shown-levels_from no_log error = refl
is_shown-levels_from no_log critical = refl
is_shown-levels_from no_log tests = refl
is_shown-levels_from no_log no_log = refl

shown-levels_from : (min : LogLevel) (es : List Entry) → shown min es ≡ among (levels_from min) es
unfolding shown among
shown-levels_from min [] = refl
shown-levels_from min (e ∷ es) =
    rw (is_shown-levels_from min e.level, shown-levels_from min es) refl

-- After any calls the logger has printed, besides what it had printed before, exactly the entries whose
-- level is in the list of its threshold, in call order: the levels from the threshold up to Critical,
-- with Tests counted as Trace; with the threshold NoLog that is every call, whatever its level.
pub log_all-printed :
    (g : Logger) (es : List Entry)
    → ((log_all g es).printed ≡ g.printed ++ among (levels_from g.min_level) es)
      × ((log_all (set_level g no_log) es).printed ≡ g.printed ++ es)
log_all-printed g es = (
  log_all-filter g es ∙ ap (◌++◌ g.printed) (shown-levels_from g.min_level es),
  log_all-no_log g es,
)
