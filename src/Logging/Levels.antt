-- ===== src/Logging/Levels.antt =====
-- internal/logging/logging.go: the levels of the severities that `Validate` accepts.
use cloud_route_manager.Base.{
  ◌≡◌, refl, sym, subst, All, All_of_contains, Text, text_eq, codes, true, List, [], ◌∷◌, contains,
  ◌↔◌,
}
use cloud_route_manager.Base.Strings.{to_lower, trim_space}
use cloud_route_manager.Config.{severities}
use cloud_route_manager.Logging.{Level, debug, info, warn, error, level_by, level_of}

-- The words of a severity that has the level.
abbrev pub words_of : Level → List Text
words_of debug = codes "debug" ∷ []
words_of info = codes "info" ∷ []
words_of warn = codes "warn" ∷ codes "warning" ∷ []
words_of error = codes "error" ∷ []

-- The words of a level are those that have it.
abbrev Agrees : Text → Type 0
Agrees word = (l : Level) → (level_by word ≡ l) ↔ (contains (words_of l) word ≡ true)

agree_debug : Agrees (codes "debug")
unfolding level_by text_eq
agree_debug debug = (λ h. refl, λ h. refl)
agree_debug info = (λ h. cc h, λ h. cc h)
agree_debug warn = (λ h. cc h, λ h. cc h)
agree_debug error = (λ h. cc h, λ h. cc h)

agree_info : Agrees (codes "info")
unfolding level_by text_eq
agree_info debug = (λ h. cc h, λ h. cc h)
agree_info info = (λ h. refl, λ h. refl)
agree_info warn = (λ h. cc h, λ h. cc h)
agree_info error = (λ h. cc h, λ h. cc h)

agree_warn : Agrees (codes "warn")
unfolding level_by text_eq
agree_warn debug = (λ h. cc h, λ h. cc h)
agree_warn info = (λ h. cc h, λ h. cc h)
agree_warn warn = (λ h. refl, λ h. refl)
agree_warn error = (λ h. cc h, λ h. cc h)

agree_warning : Agrees (codes "warning")
unfolding level_by text_eq
agree_warning debug = (λ h. cc h, λ h. cc h)
agree_warning info = (λ h. cc h, λ h. cc h)
agree_warning warn = (λ h. refl, λ h. refl)
agree_warning error = (λ h. cc h, λ h. cc h)

agree_error : Agrees (codes "error")
unfolding level_by text_eq
agree_error debug = (λ h. cc h, λ h. cc h)
agree_error info = (λ h. cc h, λ h. cc h)
agree_error warn = (λ h. cc h, λ h. cc h)
agree_error error = (λ h. refl, λ h. refl)

every_severity : All Agrees severities
every_severity = (agree_debug, (agree_info, (agree_warn, (agree_warning, (agree_error, tt)))))

-- A severity that `Validate` accepts and that has no space around it has the level that it names.
pub level_of-word :
    (name : Text) (l : Level)
    → trim_space name ≡ name
    → contains severities (to_lower name) ≡ true
    → (level_of name ≡ l) ↔ (contains (words_of l) (to_lower name) ≡ true)
unfolding level_of
level_of-word name l t h =
    subst (λ n. (level_by (to_lower n) ≡ l) ↔ (contains (words_of l) (to_lower name) ≡ true))
      (sym t) (All_of_contains Agrees severities (to_lower name) every_severity h l)
