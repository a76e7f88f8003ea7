-- ===== src/Statistics/Windows.antt =====
-- src/driver/sensor_statistics.cpp: what the parts of a call do to the windows of receipts.
use xgc2_multirotor_controll.Prelude.{
  ℕ, zero, suc, ◌+◌, ◌-◌, ◌<◌, ◌≤◌, ◌≡◌, ◌==◌, refl, Bool, none-Gives, Bool-cases, inl, inr, sym,
  ap, ◌∙◌, true, false, Option, List, [], ◌∷◌, ◌++◌, map, ltb, if◌then◌else◌, length, drop,
  length-append, length-drop, arith, Gives, chain-Gives, bind-Gives, some-Gives,
}
use xgc2_multirotor_controll.Double.{Double}
use xgc2_multirotor_controll.Time.{Stamp}
use xgc2_multirotor_controll.Statistics.{
  Track, window, trimmed, modify_at, each, observe_track, measured, measure_window,
  heartbeat_window,
}

-- the last ten
abbrev pub latest : List Stamp → List Stamp
latest xs = drop (length xs - window) xs

-- the receipts of the stream with an index
abbrev pub receipts_of : ℕ → List (ℕ × Stamp) → List Stamp
receipts_of i [] = []
receipts_of i ((k, r) ∷ rs) = if k == i then r ∷ receipts_of i rs else receipts_of i rs

receipts_of-same :
    (i k : ℕ) (rs : List (ℕ × Stamp)) (r : Stamp)
    → k == i ≡ true
    → receipts_of i (rs ++ ((k, r) ∷ [])) ≡ receipts_of i rs ++ (r ∷ [])
receipts_of-same i k [] r h = ground arith
receipts_of-same i k ((j, x) ∷ rs) r h = ground (arith, receipts_of-same i k rs r h)

receipts_of-other :
    (i k : ℕ) (rs : List (ℕ × Stamp)) (r : Stamp)
    → k == i ≡ false
    → receipts_of i (rs ++ ((k, r) ∷ [])) ≡ receipts_of i rs
receipts_of-other i k [] r h = ground arith
receipts_of-other i k ((j, x) ∷ rs) r h = ground (arith, receipts_of-other i k rs r h)

drop-snoc :
    (n : ℕ) (xs : List Stamp) (r : Stamp)
    → n ≤ length xs
    → drop n xs ++ (r ∷ []) ≡ drop n (xs ++ (r ∷ []))
drop-snoc zero xs r h = refl
drop-snoc (suc n) [] r h = ground arith
drop-snoc (suc n) (x ∷ xs) r h = drop-snoc n xs r (omega arith)

drop-drop : (n : ℕ) (xs : List Stamp) → drop 1 (drop n xs) ≡ drop (suc n) xs
drop-drop zero xs = refl
drop-drop (suc n) [] = refl
drop-drop (suc n) (x ∷ xs) = drop-drop n xs

-- a window that receives, trimmed, is the window of one more
latest-snoc :
    (xs : List Stamp) (r : Stamp)
    → trimmed (ltb window (length (latest xs ++ (r ∷ [])))) (latest xs ++ (r ∷ []))
      ≡ latest (xs ++ (r ∷ []))
unfolding trimmed
latest-snoc xs r =
    let kept = length-drop (length xs - window) xs in
    let grown = length-append (latest xs) (r ∷ []) in
    let longer = length-append xs (r ∷ []) in
    elim (Bool-cases (ltb (length xs) window)) [
      | inl short ↦
          let start : length xs - window ≡ 0 = ground arith in
          let start' : length (xs ++ (r ∷ [])) - window ≡ 0 = ground (arith, longer) in
          let fits : ltb window (length (xs ++ (r ∷ []))) ≡ false = ground (arith, longer) in
          rw (start, start', fits) refl
      | inr full ↦
          let n = length xs - window in
          let next : length (xs ++ (r ∷ [])) - window ≡ suc n = ground (arith, longer) in
          let over : ltb window (length (latest xs ++ (r ∷ []))) ≡ true =
            ground (arith, kept, grown) in
          rw (over, next)
            (ap (λ (ys : List Stamp). drop 1 ys) (drop-snoc n xs r (omega arith))
              ∙ drop-drop n (xs ++ (r ∷ [])))
    ]

length-trimmed {ℓ κ} :
    {A : Type ℓ} {B : Type κ} (b : Bool) (xs : List A) (ys : List B)
    → length xs ≡ length ys
    → length (trimmed b xs) ≡ length (trimmed b ys)
unfolding trimmed
length-trimmed true xs ys h = omega (arith, length-drop 1 xs, length-drop 1 ys)
length-trimmed false xs ys h = h

module _ {F : Type 0} where
  -- A track holds the last ten of the receipts, and as many intervals.
  pub record Window (xs : List Stamp) (t : Track F) : Type 0 where
    pub times : t.times ≡ latest xs
    pub dts : length t.dts ≡ length t.times

  -- the tracks from the index `i` on
  abbrev pub Windows : ℕ → List (Track F) → List (ℕ × Stamp) → Type 0
  Windows i [] rs = Unit
  Windows i (t ∷ ts) rs = Window (receipts_of i rs) t × Windows (suc i) ts rs

  observe_track-Window :
      ⦃d : Double F⦄
      → (r : Stamp) (xs : List Stamp) (t : Track F) → Window xs t
      → Gives (Window (xs ++ (r ∷ []))) (observe_track r t)
  unfolding observe_track trimmed
  observe_track-Window r xs t w = bind-Gives (Window (xs ++ (r ∷ []))) _ _ (λ dt.
      some-Gives (Window (xs ++ (r ∷ []))) _ (record {
        times = rw w.times (latest-snoc xs r);
        dts =
            length-trimmed _ (t.dts ++ (dt ∷ [])) (t.times ++ (r ∷ []))
              (omega (arith, length-append t.dts (dt ∷ []), length-append t.times (r ∷ []), w.dts));
      }))

  -- What leaves the receipts and the number of intervals keeps the windows.
  abbrev pub Kept : Track F → Track F → Type 0
  Kept t t' = (t'.times ≡ t.times) × (t'.dts ≡ t.dts)

  Window-Kept : (xs : List Stamp) (t t' : Track F) → Window xs t → Kept t t' → Window xs t'
  Window-Kept xs t t' w (times, dts) = record {
    times = times ∙ w.times;
    dts = ap length dts ∙ w.dts ∙ sym (ap length times);
  }

  pub measure_window-Kept :
      ⦃d : Double F⦄ → (t : Track F) (times : List Stamp) → Gives (Kept t) (measure_window times t)
  unfolding measure_window measured
  measure_window-Kept t [] = some-Gives (Kept t) t (refl, refl)
  measure_window-Kept t (x ∷ []) = some-Gives (Kept t) t (refl, refl)
  measure_window-Kept t (x ∷ y ∷ rest) =
      bind-Gives (Kept t) _ _ (λ r. some-Gives (Kept t) _ (refl, refl))

  pub heartbeat_window-Kept :
      ⦃d : Double F⦄
      → (now : Stamp) (t : Track F) (times : List Stamp)
      → Gives (Kept t) (heartbeat_window now times t)
  unfolding heartbeat_window
  heartbeat_window-Kept now t [] = some-Gives (Kept t) t (refl, refl)
  heartbeat_window-Kept now t (x ∷ rest) =
      bind-Gives (Kept t) _ _ (λ r. some-Gives (Kept t) _ (refl, refl))

  Windows-other :
      (i k : ℕ) (r : Stamp) (ts : List (Track F)) (rs : List (ℕ × Stamp))
      → k < i
      → Windows i ts rs
      → Windows i ts (rs ++ ((k, r) ∷ []))
  Windows-other i k r [] rs h w = tt
  Windows-other i k r (t ∷ ts) rs h (w, ws) = (
    rw (receipts_of-other i k rs r (ground arith)) w,
    Windows-other (suc i) k r ts rs (omega arith) ws,
  )

  pub Windows-each :
      (f : Track F → Option (Track F)) (i : ℕ) (ts : List (Track F)) (rs : List (ℕ × Stamp))
      → ((t : Track F) → Gives (Kept t) (f t))
      → Windows i ts rs
      → Gives (λ (ts' : List (Track F)). Windows i ts' rs) (each f ts)
  unfolding each
  Windows-each f i [] rs keeps w = some-Gives (λ (ts' : List (Track F)). Windows i ts' rs) [] tt
  Windows-each f i (t ∷ ts) rs keeps (w, ws) =
      let P = λ (ts' : List (Track F)). Windows i ts' rs in
      chain-Gives (Kept t) P (f t) _ (keeps t) (λ t' kept.
        chain-Gives (λ ys. Windows (suc i) ys rs) P (each f ts) _
          (Windows-each f (suc i) ts rs keeps ws)
          (λ ys hs. some-Gives P (t' ∷ ys) (Window-Kept _ t t' w kept, hs)))

  pub Windows-modify :
      (f : Track F → Option (Track F)) (k i : ℕ) (ts : List (Track F)) (rs : List (ℕ × Stamp))
      → ((t : Track F) → Gives (Kept t) (f t))
      → Windows i ts rs
      → Gives (λ (ts' : List (Track F)). Windows i ts' rs) (modify_at f k ts)
  unfolding modify_at
  Windows-modify f k i [] rs keeps w = none-Gives (λ (ts' : List (Track F)). Windows i ts' rs)
  Windows-modify f zero i (t ∷ ts) rs keeps (w, ws) =
      let P = λ (ts' : List (Track F)). Windows i ts' rs in
      chain-Gives (Kept t) P (f t) _ (keeps t)
        (λ t' kept. some-Gives P (t' ∷ ts) (Window-Kept _ t t' w kept, ws))
  Windows-modify f (suc k) i (t ∷ ts) rs keeps (w, ws) =
      let P = λ (ts' : List (Track F)). Windows i ts' rs in
      chain-Gives (λ ys. Windows (suc i) ys rs) P (modify_at f k ts) _
        (Windows-modify f k (suc i) ts rs keeps ws) (λ ys hs. some-Gives P (t ∷ ys) (w, hs))

  pub Windows-observe :
      ⦃d : Double F⦄
      → (r : Stamp) (k i j : ℕ) (ts : List (Track F)) (rs : List (ℕ × Stamp)) → j ≡ i + k
      → Windows i ts rs
      → Gives
          (λ (ts' : List (Track F)). Windows i ts' (rs ++ ((j, r) ∷ [])))
          (modify_at (observe_track r) k ts)
  unfolding modify_at
  Windows-observe r k i j [] rs e w =
      none-Gives (λ (ts' : List (Track F)). Windows i ts' (rs ++ ((j, r) ∷ [])))
  Windows-observe r zero i j (t ∷ ts) rs e (w, ws) =
      let P = λ (ts' : List (Track F)). Windows i ts' (rs ++ ((j, r) ∷ [])) in
      chain-Gives (Window (receipts_of i rs ++ (r ∷ []))) P (observe_track r t) _
        (observe_track-Window r (receipts_of i rs) t w)
        (λ t' w'. some-Gives P (t' ∷ ts) (
          rw (receipts_of-same i j rs r (ground arith)) w',
          Windows-other (suc i) j r ts rs (omega arith) ws,
        ))
  Windows-observe r (suc k) i j (t ∷ ts) rs e (w, ws) =
      let P = λ (ts' : List (Track F)). Windows i ts' (rs ++ ((j, r) ∷ [])) in
      chain-Gives (λ (ys : List (Track F)). Windows (suc i) ys (rs ++ ((j, r) ∷ []))) P
        (modify_at (observe_track r) k ts) _ (Windows-observe r k (suc i) j ts rs (omega arith) ws)
        (λ ys hs. some-Gives P (t ∷ ys) (rw (receipts_of-other i j rs r (ground arith)) w, hs))

  pub Windows-reset :
      (f : Track F → Track F) (i : ℕ) (ts : List (Track F)) (rs : List (ℕ × Stamp))
      → ((t : Track F) → Kept t (f t))
      → Windows i ts rs
      → Windows i (map f ts) rs
  Windows-reset f i [] rs keeps w = tt
  Windows-reset f i (t ∷ ts) rs keeps (w, ws) =
      (Window-Kept _ t (f t) w (keeps t), Windows-reset f (suc i) ts rs keeps ws)
