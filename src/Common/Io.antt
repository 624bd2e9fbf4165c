-- ===== src/Common/Io.antt =====
-- Code that reads and changes a state and may raise: an exception keeps what was done before it. A
-- client uses this module in place of `Result`'s `◌>>=◌`.
use mathlib.Core.Path.{◌≡◌, refl}
use enterprise_doc_rag.Common.Result.{Result, Error, ok, err}

abbrev pub Io : Type 0 → Type 0 → Type 0
Io World A = World → Result A × World

module _ {World A : Type 0} where
  abbrev pub pure : A → Io World A
  pure a w = (ok a, w)

  abbrev pub lift : Result A → Io World A
  lift r w = (r, w)

  pub returned : (a b : A) (w v : World) → pure a w ≡ (ok b, v) → (a ≡ b) × (w ≡ v)
  returned a b w v h = (cc h, cc h)

  -- `try: step except Exception as e: handler`
  abbrev pub caught : (Error → Io World A) → Result A × World → Result A × World
  caught handler (err e, w) = handler e w
  caught handler (ok a, w) = (ok a, w)

  abbrev pub try_except : Io World A → (Error → Io World A) → Io World A
  try_except step handler w = caught handler (step w)

module _ {World A B : Type 0} where
  abbrev pub continue : (A → Io World B) → Result A × World → Result B × World
  continue rest (err e, w) = (err e, w)
  continue rest (ok a, w) = rest a w

  infixl 5 ◌>>=◌
  abbrev pub ◌>>=◌ : Io World A → (A → Io World B) → Io World B
  (step >>= rest) w = continue rest (step w)

  -- A sequence that returned goes on from a step that did.
  pub continued :
      (rest : A → Io World B) (r : Result A) (v w' : World) (b : B)
      → continue rest (r, v) ≡ (ok b, w')
      → (a : A) × (r ≡ ok a) × (rest a v ≡ (ok b, w'))
  continued rest (err e) v w' b h = cc
  continued rest (ok a) v w' b h = (a, refl, h)

  pub ran :
      (step : Io World A) (rest : A → Io World B) (w w' : World) (b : B)
      → (step >>= rest) w ≡ (ok b, w')
      → (a : A) × (v : World) × (step w ≡ (ok a, v)) × (rest a v ≡ (ok b, w'))
  ran step rest w w' b h =
      let (a, e, f) = continued rest (step w).0 (step w).1 w' b h in (a, (step w).1, cc e, f)

-- What holds of the state after a step, whatever the step returns.
abbrev pub Leads : {World A : Type 0} → (World → Type 0) → Io World A → (World → Type 0) → Type 0
Leads {World} P step Q = (w : World) → P w → Q (step w).1

abbrev pub Keeps : {World A : Type 0} → (World → Type 0) → Io World A → Type 0
Keeps P step = Leads P step P

module _ {World A B : Type 0} (P Q R : World → Type 0) where
  pub Leads-bind :
      (step : Io World A) (rest : A → Io World B)
      → Leads P step Q
      → ((w : World) → Q w → R w)
      → ((a : A) → Leads Q (rest a) R)
      → Leads P (step >>= rest) R
  Leads-bind step rest first raised then_rest w h = go (step w) (first w h)
    where
      go : (r : Result A × World) → Q r.1 → R (continue rest r).1
      go (err e, v) k = raised v k
      go (ok a, v) k = then_rest a v k

  pub Leads-lift :
      (r : Result A) (rest : A → Io World B)
      → ((w : World) → P w → R w)
      → ((a : A) → r ≡ ok a → Leads P (rest a) R)
      → Leads P (lift r >>= rest) R
  Leads-lift (err e) rest raised then_rest w h = raised w h
  Leads-lift (ok a) rest raised then_rest w h = then_rest a refl w h
