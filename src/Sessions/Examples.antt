-- ===== src/Sessions/Examples.antt =====
-- Visits with a timeout of 30 minutes, in seconds.
use django_project_test.Base.{refl, ◌≡◌, none, false, string_eq, true, ℕ, ◌==◌, String, [], ◌∷◌}
use django_project_test.Sessions.{call, is_idle, is_exempt, Session, IdleTimeoutMiddleware, Texts}
use django_project_test.Sessions.Idle.{visit_all, Visit}

abbrev texts : Texts
texts = record { starts_with = λ s p. s == p; has_part = λ s p. false }

abbrev half_hour : IdleTimeoutMiddleware
half_hour = record {
  timeout = 1800;
  exempt_prefixes = "/api/health" ∷ [];
  redirect_url = "/admin/login/";
}

abbrev at : String → ℕ → Visit ℕ
at path t = record {
  request = record { path = path; accept = ""; now = t; later = t };
  view = λ s. (200, s);
  keeps = λ s. refl;
}

abbrev logged_in : Session
logged_in = record { is_authenticated = true; last_activity = none }

still_in :
    (visit_all texts half_hour
      (at "/admin/" 1000 ∷ at "/api/health" 2500 ∷ at "/admin/" 2700 ∷ [])
      logged_in).is_authenticated
    ≡ true
unfolding visit_all call is_exempt is_idle string_eq
still_in = refl
