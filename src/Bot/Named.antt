-- ===== src/Bot/Named.antt =====
-- `resolve` of app/services/matching.py, as app/discordbot/bot.py reads it: a charge that is named asks nothing.
use receipt_manager.Bot.Channel.{sole_hint}
use receipt_manager.Prelude.{
  ℕ, ◌≡◌, refl, Bool, true, false, Option, none, some, List, [], ◌∷◌, Text, Option-cases, inl, inr,
}
use receipt_manager.Bot.{DiscordMessage}
use receipt_manager.Models.{Transaction}
use receipt_manager.Engine.{Engine}
use receipt_manager.Unicode.{Unicode}
use receipt_manager.Matching.{
  MatchMethod, sole_open, MatchResult, choose, resolve_implicit, resolve, needs_prompt,
  find_by_reply, find_by_code,
}

-- a charge is only named where the picker is not needed
abbrev pub NamedBy : Option Transaction → Bool → Type 0
NamedBy none asks = Unit
NamedBy (some tx) asks = asks ≡ false

pub IsNamed : MatchResult → Type 0
IsNamed r = NamedBy r.transaction (needs_prompt r)

choose-IsNamed :
    (found : List Transaction) (truncated : Bool) (recent : List Transaction)
    → IsNamed (choose found truncated recent)
unfolding choose IsNamed needs_prompt
choose-IsNamed [] truncated recent = tt
choose-IsNamed (tx ∷ []) true recent = tt
choose-IsNamed (tx ∷ []) false recent = refl
choose-IsNamed (tx ∷ tx' ∷ txs) truncated recent = tt

resolve_implicit-IsNamed :
    (sql : Engine) (now : ℕ) (txs : List Transaction) → IsNamed (resolve_implicit sql now txs)
unfolding resolve_implicit
resolve_implicit-IsNamed sql now txs = choose-IsNamed _ _ _

pub resolve-IsNamed :
    (u : Unicode) (sql : Engine) (now : ℕ) (messages : List DiscordMessage) (txs : List Transaction)
    (referenced text : Option Text)
    → IsNamed (resolve u sql now messages txs referenced text)
unfolding resolve IsNamed needs_prompt
resolve-IsNamed u sql now messages txs referenced text =
    elim (Option-cases (find_by_reply messages txs referenced)) [
      | inr (tx, e) ↦ rw (e, resolve) refl
      | inl e ↦ elim (Option-cases (find_by_code u txs text)) [
        | inr (tx, f) ↦ rw (e, f, resolve) refl
        | inl f ↦ rw (e, f, resolve) (resolve_implicit-IsNamed sql now txs)
      ]
    ]

named_at :
    (b : Bool) (t : Option Transaction) (tx : Transaction) → t ≡ some tx → NamedBy t b → b ≡ false
named_at b none tx e h = cc
named_at b (some t) tx e h = h

pub named :
    (r : MatchResult) (tx : Transaction)
    → IsNamed r
    → r.transaction ≡ some tx
    → needs_prompt r ≡ false
unfolding IsNamed
named r tx h e = named_at (needs_prompt r) r.transaction tx e h

-- the hint of a charge that was chosen for being the only open one
abbrev pub hint_of : MatchMethod → Text
hint_of sole_open = sole_hint
hint_of _ = []
