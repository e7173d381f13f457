-- ===== src/FileRunners/Limits.antt =====
-- The limits of the calls of wrappers.
use sioworkers.Prelude.{
  str, ◌⊎◌, inl, inr, ◌≢◌, subst, ℕ, ◌≡◌, refl, Bool, true, false, Option, none, some, List, [],
  ◌∷◌, ◌++◌, ◌==◌, arith, if◌then◌else◌, is_text, codes, ap, ◌∙◌, sym,
}
use sioworkers.Executors.Quoting.{plain, cons, Args, is_set}
use sioworkers.Executors.Process.{Environ, get, Kwargs, take_limits}
use sioworkers.FileRunners.{
  java_target, entry_or_main, non_empty, in_front, Use, Wrapper, java, no_op, executable_file,
  java_sio, call_of, java_command, without, without_limit,
}

is_text-append : (p s t : List ℕ) → is_text (p ++ s) (p ++ t) ≡ is_text s t
is_text-append [] s t = refl
is_text-append (c ∷ p) s t = ground (arith, is_text-append p s t)

get-without :
    (key : List ℕ) (d : Option ℕ) (environ : Environ) → get key d (without key environ) ≡ d
get-without key d [] = refl
get-without key d (item ∷ environ) = ground (arith, get-without key d environ)

is_text_trans : (t a b : List ℕ) → is_text t a ≡ true → is_text t b ≡ true → is_text a b ≡ true
is_text_trans [] [] [] h k = refl
is_text_trans [] [] (y ∷ b) h k = k
is_text_trans [] (x ∷ a) b h k = grind arith
is_text_trans (z ∷ t) [] b h k = grind arith
is_text_trans (z ∷ t) (x ∷ a) [] h k = grind arith
is_text_trans (z ∷ t) (x ∷ a) (y ∷ b) h k = ground (arith, is_text_trans t a b)

get-other :
    (key other : List ℕ) (d : Option ℕ) (environ : Environ)
    → is_text key other ≡ false
    → get key d (without other environ) ≡ get key d environ
get-other key other d [] h = refl
get-other key other d (item ∷ environ) h =
    ground (arith, get-other key other d environ h, is_text_trans item.0 key other)

take_limits-get :
    (environ : Environ) (p : List ℕ) (k : Kwargs)
    → let t = take_limits environ p k in
      (t.mem_limit ≡ get (p ++ codes "mem_limit") k.mem_limit environ)
      × ((t.time_limit ≡ get (p ++ codes "time_limit") k.time_limit environ)
          × ((t.real_time_limit ≡ get (p ++ codes "real_time_limit") k.real_time_limit environ)
              × (t.output_limit ≡ get (p ++ codes "output_limit") k.output_limit environ)))
unfolding take_limits
take_limits-get [] p k = (refl, (refl, (refl, refl)))
take_limits-get (item ∷ environ) p k = (refl, (refl, (refl, refl)))

-- The limit of memory that the executor gets: Java takes one that is not 0 for itself.
abbrev pub mem_for : Wrapper → Option ℕ → Option ℕ → Option ℕ
mem_for no_op given own = given
mem_for executable_file given own = given
mem_for java_sio given own = given
mem_for java given own = if is_set given then none else own

-- The start of a command for a JVM, with a limit or with none.
abbrev pub WithLimit : ℕ → Args → Type 0
WithLimit n command =
    (rest : Args) × (command
      ≡ cons (plain (codes "java")) (
          cons (plain (codes "-Xmx" ++ str n ++ codes "k")) (
            cons (plain (codes "-Xms" ++ str n ++ codes "k"))
              (cons (plain (codes "-Xss" ++ str n ++ codes "k")) rest))))

abbrev pub Unlimited : Args → Type 0
Unlimited command =
    (rest : Args) × ((command ≡ cons (plain (codes "java")) (cons (plain (codes "-jar")) rest))
      ⊎ (command ≡ cons (plain (codes "java")) (cons (plain (codes "-classpath")) rest)))

abbrev pub Started : Option ℕ → Args → Type 0
Started none command = Unlimited command
Started (some n) command = (n ≡ 0 → Unlimited command) × (n ≢ 0 → WithLimit n command)

-- Only the command of Java has a JVM.
abbrev pub JvmStarted : Wrapper → Option ℕ → Args → Type 0
JvmStarted no_op given command = Unit {0}
JvmStarted executable_file given command = Unit {0}
JvmStarted java_sio given command = Unit {0}
JvmStarted java given command = Started given command

abbrev pub Passed : Wrapper → Kwargs → Kwargs → Kwargs → Type 0
Passed w own given t =
    (t.mem_limit ≡ mem_for w given.mem_limit own.mem_limit)
    × ((t.time_limit ≡ given.time_limit)
        × ((t.real_time_limit ≡ given.real_time_limit) × (t.output_limit ≡ given.output_limit)))

without_limit-parts :
    (m : Option ℕ) (k : Kwargs) → Passed java k (record k { mem_limit = m }) (without_limit m k)
without_limit-parts none k = (refl, (refl, (refl, refl)))
without_limit-parts (some n) k = choose (n == 0)
  where
    choose :
        (b : Bool)
        → let wl = if b then k else record k { mem_limit = none } in
          (wl.mem_limit ≡ (if (if b then false else true) then none else k.mem_limit))
          × ((wl.time_limit ≡ k.time_limit)
              × ((wl.real_time_limit ≡ k.real_time_limit) × (wl.output_limit ≡ k.output_limit)))
    choose true = (refl, (refl, (refl, refl)))
    choose false = (refl, (refl, (refl, refl)))

target-Unlimited :
    (entry : Option (List ℕ)) (file : List ℕ) (args : Args)
    → Unlimited (cons (plain (codes "java")) (java_target entry file args))
target-Unlimited none file args = (cons (plain file) args, inl refl)
target-Unlimited (some e) file args = (cons (plain file) (cons (plain e) args), inr refl)

java_command-Started :
    (u : Use) (m : Option ℕ) (file : List ℕ) (args : Args) → Started m (java_command u m file args)
java_command-Started u none file args =
    target-Unlimited (entry_or_main (non_empty u.entry_point) (non_empty u.info.main_class))
      (u.place file) args
java_command-Started u (some n) file args = choose (n == 0) refl
  where
    choose :
        (b : Bool)
        → (n == 0) ≡ b
        → Started (some n) (
            cons (plain (codes "java")) (
              in_front
                (if b
                  then []
                  else (codes "-Xmx" ++ str n ++ codes "k")
                    ∷ (codes "-Xms" ++ str n ++ codes "k")
                    ∷ (codes "-Xss" ++ str n ++ codes "k")
                    ∷ [])
                (java_target
                  (entry_or_main (non_empty u.entry_point) (non_empty u.info.main_class))
                  (u.place file)
                  args)))
    choose true e = (
      (λ z.
          target-Unlimited (entry_or_main (non_empty u.entry_point) (non_empty u.info.main_class))
            (u.place file) args),
      λ n. absurd (n (ground (arith, e))),
    )
    choose false e = ((λ z. absurd (ground (arith, e, z))), λ n. (_, refl))

-- A limit that is read under another key than that of the memory.
other_limit :
    (p name : List ℕ) (environ : Environ) (d own found given : Option ℕ)
    → is_text name (codes "mem_limit") ≡ false
    → found ≡ get (p ++ name) d (without (p ++ codes "mem_limit") environ)
    → d ≡ own
    → given ≡ get (p ++ name) own environ
    → found ≡ given
other_limit p name environ d own found given n f e g =
    f
    ∙ get-other (p ++ name) (p ++ codes "mem_limit") d environ
        (is_text-append p name (codes "mem_limit") ∙ n)
    ∙ ap (λ d. get (p ++ name) d environ) e
    ∙ sym g

-- The limits that an executor reads from a call are those that it would read without a wrapper, but
-- for the memory of a program in Java. A limit that is not 0 is in the options of the JVM, and the
-- executor has none; where it is 0 or none, the JVM has no such options, and the executor reads what
-- the keyword argument says.
pub call_of-limits :
    (w : Wrapper) (use_of : Use) (p : List ℕ) (environ : Environ) (file : List ℕ) (args : Args)
    → let u = record use_of { prefix = some p } in
      let c = call_of w u environ file args in
      Passed w u.kwargs (take_limits environ p u.kwargs) (take_limits c.limits p c.kwargs)
      × JvmStarted w (take_limits environ p u.kwargs).mem_limit c.command
unfolding call_of
call_of-limits no_op u p environ file args = ((refl, (refl, (refl, refl))), tt)
call_of-limits executable_file u p environ file args = ((refl, (refl, (refl, refl))), tt)
call_of-limits java_sio u p environ file args = ((refl, (refl, (refl, refl))), tt)
call_of-limits java u p environ file args =
    let key = p ++ codes "mem_limit" in
    let k = u.kwargs in
    let m = get key k.mem_limit environ in
    let wl = without_limit m k in
    let t = take_limits-get (without key environ) p wl in
    let g = take_limits-get environ p k in
    let parts = without_limit-parts m k in
    let started : Started m (java_command (record u { prefix = some p }) m file args) =
      java_command-Started (record u { prefix = some p }) m file args in
    (
      (
        t.0
            ∙ get-without key wl.mem_limit environ
            ∙ parts.0
            ∙ ap (λ m. mem_for java m k.mem_limit) (sym g.0),
        (
          other_limit p (codes "time_limit") environ wl.time_limit k.time_limit
              (take_limits (without key environ) p wl).time_limit
              (take_limits environ p k).time_limit refl t.1.0 parts.1.0 g.1.0,
          (
            other_limit p (codes "real_time_limit") environ wl.real_time_limit k.real_time_limit
                (take_limits (without key environ) p wl).real_time_limit
                (take_limits environ p k).real_time_limit refl t.1.1.0 parts.1.1.0 g.1.1.0,
            other_limit p (codes "output_limit") environ wl.output_limit k.output_limit
                (take_limits (without key environ) p wl).output_limit
                (take_limits environ p k).output_limit refl t.1.1.1 parts.1.1.1 g.1.1.1,
          ),
        ),
      ),
      subst (λ z. Started z (java_command (record u { prefix = some p }) m file args)) (sym g.0)
          started,
    )

-- Java takes the limit of memory out of the environment itself: a second call with the environment
-- that the first one left has no limit, neither for the JVM nor for the executor, if the keyword
-- argument has none.
pub java_again-unlimited :
    (use_of : Use) (p : List ℕ) (environ : Environ) (first second : List ℕ) (args more : Args)
    → let u = record use_of { prefix = some p } in
      let left = (call_of java u environ first args).limits in
      let again = call_of java u left second more in
      u.kwargs.mem_limit ≡ none
      → (again.command ≡ java_command u none second more)
        × ((take_limits again.limits p again.kwargs).mem_limit ≡ none)
unfolding call_of
java_again-unlimited use_of p environ first second args more n =
    let u : Use = record use_of { prefix = some p } in
    let key = p ++ codes "mem_limit" in
    let left = without key environ in
    let gone = get-without key use_of.kwargs.mem_limit environ ∙ n in
    let limits = call_of-limits java use_of p left second more in
    (
      ap (λ m. java_command u m second more) gone,
      limits.0.0
          ∙ ap (λ m. mem_for java m use_of.kwargs.mem_limit)
              ((take_limits-get left p use_of.kwargs).0 ∙ gone)
          ∙ n,
    )
