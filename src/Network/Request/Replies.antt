-- ===== src/Network/Request/Replies.antt =====
-- Which requests of network-module/kvmnetwork.c get a reply.
use mathlib.Core.Path.{subst}
use c_modules.Base.{
  ltb→lt, ℕ, ◌≤◌, ◌<◌, ◌⊎◌, List, [], ◌∷◌, ◌≡◌, refl, ap, ◌∙◌, sym, arith, Bool, true, false,
  Bool-cases, inl, inr, Option, none, some, length, map, get_or, All, ltb, Behaviour, defined,
  undefined,
}
use c_modules.Tokens.Words.{IsWord, joined}
use c_modules.Network.Uart.{TermiosFlags, Port, Uart, exchange_command, exchanged, uart_command}
use c_modules.Network.Request.{
  argument, is_prefix, buf_size, kvm, Handled, replied, undefined_behind, reply_with, run_channel,
  dispatch, handle_text,
}
use c_modules.Network.Request.Commands.{
  tokens, argv, handle_text-argv, argument_of, compared, handle-few, handle-many, compared-kvm,
  compared-other,
}

-- The request ends without a reply.
abbrev pub IsBroken : Handled → Type 0
IsBroken (replied e buf text) = ⊥
IsBroken (undefined_behind commands) = Unit

exchange-null :
    (flags : TermiosFlags) (port : Port) (u : Uart) → exchange_command flags port none u ≡ undefined
unfolding exchange_command uart_command exchanged
exchange-null flags port u = refl

run_channel-IsBroken :
    (b : Behaviour Bool) (value : Option (List ℕ)) → IsBroken (run_channel b value)
unfolding run_channel
run_channel-IsBroken undefined value = _
run_channel-IsBroken (defined false) value = _
run_channel-IsBroken (defined true) none = _
run_channel-IsBroken (defined true) (some value) = _

module _ (flags : TermiosFlags) (port : Port) (u : Uart) (buf : List ℕ)
    (argv : List (Option ℕ)) where
  dispatch-null :
      argument buf argv 1 ≡ none
      → (b : Behaviour Bool) → IsBroken (dispatch flags port u buf argv b)
  unfolding dispatch reply_with
  dispatch-null e undefined = _
  dispatch-null e (defined true) = rw (e, exchange-null flags port u) _
  dispatch-null e (defined false) = run_channel-IsBroken _ _

  dispatch-other :
      (b : Behaviour Bool)
      → (b ≡ defined false) ⊎ (b ≡ undefined)
      → IsBroken (dispatch flags port u buf argv b)
  unfolding dispatch
  dispatch-other b (inl e) = rw e (run_channel-IsBroken _ _)
  dispatch-other b (inr e) = rw e _

-- Words that no request may have: more than four, only one, or a first that does not start with KVM.
abbrev pub IsWrong : List ℕ → List (List ℕ) → Type 0
IsWrong w ws = (3 < length ws) ⊎ (ws ≡ []) ⊎ (is_prefix kvm w ≡ false)

-- Words with a comma between them, in a buffer of the size of buf.
module _ (flags : TermiosFlags) (port : Port) (u : Uart) (w : List ℕ) (ws : List (List ℕ))
    (buf : List ℕ) (h : IsWord 44 w) (hs : All (IsWord 44) ws) (size : length buf ≡ buf_size)
    (lt : length (joined 44 (w ∷ ws)) < buf_size) where
  abbrev result : Handled
  result = handle_text flags port u buf [] (joined 44 (w ∷ ws))

  text-dispatch :
      ((b : Behaviour Bool)
        → b ≡ compared flags port u w ws buf h hs size lt
        → IsBroken (
            dispatch flags port u
              (tokens flags port u w ws buf h hs size lt).text
              (argv flags port u w ws buf h hs size lt)
              b))
      → IsBroken result
  text-dispatch broken =
      let text = handle_text-argv flags port u w ws buf h hs size lt in
      elim (Bool-cases (ltb 3 (length ws))) [
        | inl many ↦
            subst IsBroken
              (sym
                (text ∙ handle-many flags port u w ws buf h hs size lt (ltb→lt 3 (length ws) many)))
              _
        | inr few ↦
            subst IsBroken
              (sym (text ∙ handle-few flags port u w ws buf h hs size lt (ground arith)))
              (broken _ refl)
      ]

  pub handle_text-IsBroken : IsWrong w ws → IsBroken result
  handle_text-IsBroken (inl many) =
      subst IsBroken
        (sym (
          handle_text-argv flags port u w ws buf h hs size lt
          ∙ handle-many flags port u w ws buf h hs size lt many))
        _
  handle_text-IsBroken (inr (inl alone)) = text-dispatch (λ b e.
      dispatch-null flags port u _ _
        (argument_of flags port u w ws buf h hs size lt 1
          ∙ ap (λ vs. get_or (map some (w ∷ vs)) 1 none) alone)
        b)
  handle_text-IsBroken (inr (inr other)) = text-dispatch (λ b e. dispatch-other flags port u _ _ b (
      subst (λ c. (c ≡ defined false) ⊎ (c ≡ undefined)) (sym e)
        (compared-other flags port u w ws buf h hs size lt other)))

pub handle_text-kvm :
    (flags : TermiosFlags) (port : Port) (u : Uart) (w v : List ℕ) (ws : List (List ℕ))
    (buf : List ℕ)
    → IsWord 44 w
    → All (IsWord 44) (v ∷ ws)
    → length buf ≡ buf_size
    → length (joined 44 (w ∷ v ∷ ws)) < buf_size
    → length ws ≤ 2
    → is_prefix kvm w ≡ true
    → handle_text flags port u buf [] (joined 44 (w ∷ v ∷ ws))
      ≡ reply_with (exchange_command flags port (some v) u)
unfolding dispatch
handle_text-kvm flags port u w v ws buf h hs size lt few e =
    handle_text-argv flags port u w (v ∷ ws) buf h hs size lt
    ∙ handle-few flags port u w (v ∷ ws) buf h hs size lt (omega arith)
    ∙ ap
        (dispatch flags port u (tokens flags port u w (v ∷ ws) buf h hs size lt).text
          (argv flags port u w (v ∷ ws) buf h hs size lt))
        (compared-kvm flags port u w (v ∷ ws) buf h hs size lt e)
    ∙ ap (λ o. reply_with (exchange_command flags port o u))
        (argument_of flags port u w (v ∷ ws) buf h hs size lt 1)
