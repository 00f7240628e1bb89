-- ===== src/Recovery/Steering/Expired.antt =====
-- The steering loop once its watchdog has expired.
use mathlib.Core.Path.{subst}
use asteria_firmware.Prelude.{
  ◌-◌, ◌<◌, ◌≡◌, refl, sym, ap, ◌∙◌, inl, inr, Bool, true, false, Bool-cases, List, [], ◌∷◌, Option,
  none, some, All, leb, if◌then◌else◌,
}
use asteria_firmware.Prelude.Int.{ℤ}
use asteria_firmware.Rsbl.Bus.{Rsbl, Result, ok, err, final}
use asteria_firmware.Rsbl.Motion.{left, right, steer_parachutes}
use asteria_firmware.Rsbl.Motion.Keeps.{SamePos, SamePos-trans}
use asteria_firmware.Recovery.Watchdog.{Watchdog, IsExpired, check, check-IsExpired, check-late}
use asteria_firmware.Recovery.Steering.{
  Steering, Round, received, start_up, spiral, spiralled, send, watchdog_expired, report, read_side,
  guarded, steering_round, powered_round, unpowered, rounds, safety_spiral_pos_left,
  safety_spiral_pos_right,
}
use asteria_firmware.Recovery.Steering.Kept.{
  Toward, read_side-SamePos, startup_sequence-SamePos, steer_parachutes-tracks,
}

-- Each servo is tracked as before or at its position of the safety spiral.
abbrev pub Heads : Rsbl → Rsbl → Type 0
Heads s t =
    Toward safety_spiral_pos_left s.left_pos t.left_pos
    × Toward safety_spiral_pos_right s.right_pos t.right_pos

Toward-trans : (target a b c : ℤ) → Toward target a b → Toward target b c → Toward target a c
Toward-trans target a b c p (inl q) = elim p [ inl e ↦ inl (q ∙ e) | inr e ↦ inr (q ∙ e) ]
Toward-trans target a b c p (inr q) = inr q

Heads-trans : (s t u : Rsbl) → Heads s t → Heads t u → Heads s u
Heads-trans s t u p q = (
  Toward-trans safety_spiral_pos_left s.left_pos t.left_pos u.left_pos p.0 q.0,
  Toward-trans safety_spiral_pos_right s.right_pos t.right_pos u.right_pos p.1 q.1,
)

Heads-SamePos : (s t : Rsbl) → SamePos s t → Heads s t
Heads-SamePos s t h = (inl h.0, inl h.1)

-- Resetting the port of the driver leaves its other fields alone.
abbrev pub KeepsPos : Round → Type 0
KeepsPos r = (t : Rsbl) → SamePos t (r.reset t)

start_up-kept :
    (r : Round) (s : Steering)
    → KeepsPos r
    → SamePos s.rsbl (start_up r s).rsbl
      × ((start_up r s).watchdog ≡ s.watchdog)
      × ((start_up r s).targets ≡ s.targets)
      × ((start_up r s).safety_spiral_active ≡ s.safety_spiral_active)
unfolding start_up
start_up-kept r s keeps = elim (Bool-cases s.active) [
  | inl on ↦ rw on ((refl, refl), refl, refl, refl)
  | inr off ↦ rw off (startup_sequence-SamePos r.reset s.rsbl keeps, refl, refl, refl)
]

report-kept :
    (r : Round) (s : Steering)
    → SamePos s.rsbl (report r s).rsbl
      × ((report r s).watchdog ≡ s.watchdog)
      × ((report r s).targets ≡ s.targets)
unfolding report
report-kept r s =
    let l = read_side left s.rsbl in
    elim (Bool-cases (leb r.report_interval (r.compared_at - s.last))) [
      | inl due ↦ rw due (
        SamePos-trans s.rsbl l.1 (read_side right l.1).1 (read_side-SamePos left s.rsbl)
            (read_side-SamePos right l.1),
        refl,
        refl,
      )
      | inr early ↦ rw early ((refl, refl), refl, refl)
    ]

spiralled-kept :
    (s : Steering) (u : Result (Unit {0}))
    → ((spiralled s u).rsbl ≡ final u)
      × ((spiralled s u).watchdog ≡ s.watchdog)
      × ((spiralled s u).targets ≡ s.targets)
spiralled-kept s (ok _ t) = (refl, refl, refl)
spiralled-kept s (err e t) = (refl, refl, refl)

abbrev spiral_moves : Rsbl → Result (Unit {0})
spiral_moves t = steer_parachutes safety_spiral_pos_left safety_spiral_pos_right t

-- What the branch of the expired watchdog does, when it has not succeeded before.
spiral-first :
    (s : Steering)
    → s.safety_spiral_active ≡ false
    → spiral s ≡ spiralled (send watchdog_expired s) (spiral_moves s.rsbl)
unfolding spiral
spiral-first s h =
    ap (λ b. if b then s else spiralled (send watchdog_expired s) (spiral_moves s.rsbl)) h

spiral-done : (s : Steering) → s.safety_spiral_active ≡ true → spiral s ≡ s
unfolding spiral
spiral-done s h =
    ap (λ b. if b then s else spiralled (send watchdog_expired s) (spiral_moves s.rsbl)) h

-- The watchdog and the message stay, and the servos head for the spiral.
abbrev Spirals : Steering → Steering → Type 0
Spirals s t = Heads s.rsbl t.rsbl × (t.watchdog ≡ s.watchdog) × (t.targets ≡ s.targets)

spiralled-Spirals :
    (s : Steering) (u : Result (Unit {0})) → Heads s.rsbl (final u) → Spirals s (spiralled s u)
spiralled-Spirals s (ok _ t) h = (h, refl, refl)
spiralled-Spirals s (err e t) h = (h, refl, refl)

spiral-Spirals : (s : Steering) → Spirals s (spiral s)
spiral-Spirals s = elim (Bool-cases s.safety_spiral_active) [
  | inl done ↦ rw (spiral-done s done) ((inl refl, inl refl), refl, refl)
  | inr first ↦
      let (at_left, toward_right) =
        steer_parachutes-tracks safety_spiral_pos_left safety_spiral_pos_right s.rsbl in
      rw (spiral-first s first) (
        spiralled-Spirals (send watchdog_expired s) (spiral_moves s.rsbl)
          (inr at_left, toward_right))
]

Spirals-trans : (s t u : Steering) → Spirals s t → Spirals t u → Spirals s u
Spirals-trans s t u p q = (Heads-trans s.rsbl t.rsbl u.rsbl p.0 q.0, q.1 ∙ p.1, q.2 ∙ p.2)

-- A refused check leads to the branch of the expired watchdog.
refused :
    (r : Round) (p : Bool × Watchdog) (s : Steering)
    → p.0 ≡ false
    → guarded r p s ≡ spiral (record s { watchdog = p.1 })
refused r (true, w) s h = absurd (cc)
refused r (false, w) s h = refl

-- A round whose check is refused, from the state that the check sees.
-- The state that the branch of the expired watchdog starts from.
abbrev spiral_state : Round → Steering → Steering
spiral_state r s = record (start_up r s) { watchdog = (check r.checked_at s.watchdog).1 }

refused_path :
    (r : Round) (s : Steering)
    → KeepsPos r
    → (check r.checked_at s.watchdog).0 ≡ false
    → powered_round r s ≡ report r (spiral (spiral_state r s))
refused_path r s keeps h =
    ap (λ w. report r (guarded r (check r.checked_at w) (start_up r s))) (start_up-kept r s keeps).1
    ∙ ap (report r) (refused r (check r.checked_at s.watchdog) (start_up r s) h)

refused_round :
    (r : Round) (s : Steering)
    → KeepsPos r
    → (check r.checked_at s.watchdog).0 ≡ false
    → Heads s.rsbl (powered_round r s).rsbl
      × ((powered_round r s).watchdog ≡ (check r.checked_at s.watchdog).1)
      × ((powered_round r s).targets ≡ s.targets)
refused_round r s keeps h =
    let begun = start_up-kept r s keeps in
    let (heads, same, unread) = spiral-Spirals (spiral_state r s) in
    let (silent, watched, kept) = report-kept r (spiral (spiral_state r s)) in
    let path = refused_path r s keeps h in
    let after = spiral (spiral_state r s) in
    (
      subst (λ t. Heads s.rsbl t.rsbl) (sym path)
          (Heads-trans s.rsbl (start_up r s).rsbl (report r after).rsbl
            (Heads-SamePos s.rsbl (start_up r s).rsbl begun.0)
            (Heads-trans (start_up r s).rsbl after.rsbl (report r after).rsbl heads
              (Heads-SamePos after.rsbl (report r after).rsbl silent))),
      ap (λ t. t.watchdog) path ∙ watched ∙ same,
      ap (λ t. t.targets) path ∙ kept ∙ unread ∙ begun.2,
    )

-- The state that the body of the loop sees.
received-same :
    (m : Option (ℤ × ℤ)) (s : Steering)
    → ((received m s).rsbl ≡ s.rsbl) × ((received m s).watchdog ≡ s.watchdog)
received-same none s = (refl, refl)
received-same (some message) s = (refl, refl)

if-both : (P : Steering → Type 0) (b : Bool) (x y : Steering) → P x → P y → P (if b then x else y)
if-both P true x y p q = p
if-both P false x y p q = q

body-IsExpired :
    (r : Round) (s : Steering)
    → KeepsPos r
    → IsExpired s.watchdog
    → let t = if r.powered then powered_round r s else unpowered s in
      Heads s.rsbl t.rsbl × IsExpired t.watchdog
body-IsExpired r s keeps h =
    let checked = check-IsExpired r.checked_at s.watchdog h in
    let (heads, watched, unread) = refused_round r s keeps (ap (λ c. c.0) checked) in
    if-both (λ t. Heads s.rsbl t.rsbl × IsExpired t.watchdog) r.powered (powered_round r s)
      (unpowered s) (heads, subst IsExpired (sym (watched ∙ ap (λ c. c.1) checked)) h)
      ((inl refl, inl refl), h)

steering_round-IsExpired :
    (r : Round) (s : Steering)
    → KeepsPos r
    → IsExpired s.watchdog
    → Heads s.rsbl (steering_round r s).rsbl × IsExpired (steering_round r s).watchdog
unfolding steering_round
steering_round-IsExpired r s keeps h =
    let (same, watched) = received-same r.message s in
    let (heads, still) =
      body-IsExpired r (received r.message s) keeps (subst IsExpired (sym watched) h) in
    (subst (λ t. Heads t (steering_round r s).rsbl) same heads, still)

-- Once the watchdog has expired it stays expired, over any rounds, also when the power goes off and
-- on again in between; no message steers a servo any more: each is tracked where it was or at its
-- position of the safety spiral. Resetting the port is taken to leave the positions alone.
pub rounds-IsExpired :
    (rs : List Round) (s : Steering)
    → All KeepsPos rs
    → IsExpired s.watchdog
    → IsExpired (rounds rs s).watchdog × Heads s.rsbl (rounds rs s).rsbl
rounds-IsExpired [] s keeps h = (h, (inl refl, inl refl))
rounds-IsExpired (r ∷ rest) s keeps h =
    let (heads, still) = steering_round-IsExpired r s keeps.0 h in
    let (after, onward) = rounds-IsExpired rest (steering_round r s) keeps.1 still in
    (after, Heads-trans s.rsbl (steering_round r s).rsbl (rounds (r ∷ rest) s).rsbl heads onward)

-- With the power on, when more than the watchdog's duration has passed since it was last fed, the
-- round leaves the watchdog expired and the waiting message unread, and it moves no servo but
-- towards the safety spiral.
steering_round-late :
    (r : Round) (s : Steering)
    → KeepsPos r
    → r.powered ≡ true
    → s.watchdog.active ≡ true
    → s.watchdog.duration < r.checked_at - s.watchdog.last_seen
    → IsExpired (steering_round r s).watchdog
      × ((steering_round r s).targets ≡ (received r.message s).targets)
      × Heads s.rsbl (steering_round r s).rsbl
unfolding steering_round
steering_round-late r s keeps on running late =
    let (same, watched) = received-same r.message s in
    let (refusal, gone) = check-late r.checked_at s.watchdog running late in
    let (heads, after, unread) =
      refused_round r (received r.message s) keeps
        (ap (λ w. (check r.checked_at w).0) watched ∙ refusal) in
    let path : steering_round r s ≡ powered_round r (received r.message s) =
      ap
        (λ b.
          if b then powered_round r (received r.message s) else unpowered (received r.message s))
        on in
    (
      subst (λ t. IsExpired t.watchdog) (sym path)
          (subst IsExpired (sym (after ∙ ap (λ w. (check r.checked_at w).1) watched)) gone),
      ap (λ t. t.targets) path ∙ unread,
      subst (λ t. Heads s.rsbl t.rsbl) (sym path)
          (subst (λ t. Heads t (powered_round r (received r.message s)).rsbl) same heads),
    )
