-- ===== src/Transport/Tests.antt =====
-- pkg/transport: the theorems on the client cache, where two callers race and a third target builds.
-- A client is here the name of the key that it was built for, and of its builder.
use formae_plugin_kubernetes.Prelude.{
  String, ◌≡◌, refl, none, some, List, [], ◌∷◌, lookup, arith, true, str_eq→ne,
}
use formae_plugin_kubernetes.Prelude.Errors.{leaf}
use formae_plugin_kubernetes.Transport.ClientCache.{
  at_key, own_client, Effective, route, Entry, got, failed, get_begin, get_end,
}
use formae_plugin_kubernetes.Transport.ClientCache.Laws.{
  Build, builds, builds-share_winner, builds-isolate, HitSuits, AnswerSuits,
}

abbrev second_race : List (Build (String × String))
second_race =
    record { now = 20; to = at_key "k"; answer = got ("k", "second") }
    ∷ record { now = 30; to = at_key "other"; answer = got ("other", "third") }
    ∷ record { now = 40; to = at_key "k"; answer = failed (leaf 9 "no such host") }
    ∷ []

abbrev first : Entry (String × String)
first = record { client = ("k", "first"); created_at = 10 }

builds-share_winner_example :
    let after = builds second_race (("k", first) ∷ []) in
    (get_begin 50 (at_key "k") after ≡ some (got ("k", "first")))
    × (get_end 50 (at_key "k") (got ("k", "late")) after ≡ (after, got ("k", "first")))
unfolding lookup
builds-share_winner_example =
    builds-share_winner second_race "k" first (("k", first) ∷ []) 50 ("k", "late") refl
      (omega arith, (omega arith, (omega arith, tt))) (omega arith)

builds-isolate_example :
    HitSuits (λ c. c.0 ≡ "k") "k" (get_begin 50 (at_key "k") (builds second_race []))
    × AnswerSuits
        (λ c. c.0 ≡ "k")
        "k"
        (get_end 50 (at_key "k") (got ("k", "late")) (builds second_race [])).1
builds-isolate_example =
    builds-isolate (λ c. c.0 ≡ "k") "k" second_race 50 ("k", "late")
      ((λ e. refl), ((λ e. ground (arith, str_eq→ne "other" "k" refl)), ((λ e. tt), tt))) refl

-- A target that asks the broker shares a client only under its binding.
abbrev broker : Effective
broker = record {
  runtime = none;
  fingerprint_error = none;
  fingerprint = "sha256:a";
  uses_oidc = true;
}

binds : route broker (some "b1") ≡ at_key "sha256:a|b1"
unfolding route
binds = refl

unbound : route broker (some "") ≡ own_client
unfolding route
unbound = refl
