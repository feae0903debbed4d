-- ===== src/Client/Keeper/Published.antt =====
-- Which connection the handlers see, and that each one is closed.
use echo_proxy_core.Base.{◌≡◌, refl, false, Option, none, some, List, [], ◌∷◌, ◌++◌, arith}
use echo_proxy_core.Client.Keeper.{
  Keeper, Event, no_token, no_mux, no_hello, connected, disconnected, shut_down, start, step, run,
}

module _ {Conn : Type 0} where
  abbrev pub current : Option Conn → List Conn
  current none = []
  current (some c) = c ∷ []

  -- The connections that were published are the one that is shared and those that were closed, and a
  -- keeper that has stopped shares none.
  pub record Inv (k : Keeper Conn) : Type 0 where
    pub accounted : k.published ≡ current k.shared ++ k.closed
    pub stopped : k.running ≡ false → k.shared ≡ none

  step-Inv : (e : Event Conn) (k : Keeper Conn) → Inv k → Inv (step e k)
  unfolding step
  step-Inv no_token k v = ground arith
  step-Inv no_mux k v = ground arith
  step-Inv no_hello k v = ground arith
  step-Inv (connected c) k v = ground arith
  step-Inv disconnected k v = ground arith
  step-Inv shut_down k v = ground arith

  run-Inv : (es : List (Event Conn)) (k : Keeper Conn) → Inv k → Inv (run es k)
  unfolding run
  run-Inv [] k v = v
  run-Inv (e ∷ es) k v = run-Inv es (step e k) (step-Inv e k v)

  start-Inv : Inv start
  unfolding start
  start-Inv = record { accounted = refl; stopped = λ h. refl }

  -- In every run of the keeper the connections that it published are the one that is shared now, if
  -- there is one, after those that were closed, each once and in the order of publication.
  pub run-start-accounted :
      (es : List (Event Conn))
      → (run es start).published ≡ current (run es start).shared ++ (run es start).closed
  run-start-accounted es = (run-Inv es start start-Inv).accounted

  -- In every run of the keeper, once it was shut down no connection is shared.
  pub run-start-shared :
      (es : List (Event Conn)) → (run es start).running ≡ false → (run es start).shared ≡ none
  run-start-shared es h = (run-Inv es start start-Inv).stopped h
