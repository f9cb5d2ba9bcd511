-- ===== src/Show/Replay/Profile.antt =====
-- The keys of user_config after the lines printed so far have been run.
use ops_intfd.Prelude.{
  Bool, false, Option, none, some, List, [], ◌∷◌, ◌++◌, ◌>>=◌, ◌≡◌, refl, sym, ap, ◌∙◌, subst, inl,
  inr, if◌then◌else◌, is_yes, Bool-cases,
}
use ops_intfd.CString.{CString, strcmp_is_zero}
use ops_intfd.CString.Equality.{strcmp-name}
use ops_intfd.Smap.{Smap, smap_get, smap_replace}
use ops_intfd.Smap.Laws.{get-replace, get-init}
use ops_intfd.Schema.{Idl, UserConfigKey, UserPause}
use ops_intfd.Database.{Ifrow}
use ops_intfd.Cli.Commands.{edit_flowcontrol, new_pause}
use ops_intfd.Cli.OnlyKey.{edit_flowcontrol-other}
use ops_intfd.Cli.FlowControl.{stored, get-edit_flowcontrol}
use ops_intfd.Show.{Line, interface_name, Out, say, print_header}
use ops_intfd.Show.Replay.{run_line, replay}
use ops_intfd.Show.Replay.Steps.{UserConfigKey-discrete}

-- What a map holds under each key.
abbrev pub Profile : Type 0
Profile = UserConfigKey → Option CString

abbrev pub key_eq : UserConfigKey → UserConfigKey → Bool
key_eq k j = is_yes (UserConfigKey-discrete k j)

abbrev pub put : Profile → UserConfigKey → Option CString → Profile
put w k v j = if key_eq k j then v else w j

abbrev pub nothing : Profile
nothing j = none

module _ ⦃idl : Idl⦄ where
  open idl use {user_config_key, user_pause_name}

  abbrev pub HasProfile : Smap → Profile → Type 0
  HasProfile config w = (j : UserConfigKey) → smap_get config (user_config_key j) ≡ w j

  pub nothing-HasProfile : HasProfile [] nothing
  nothing-HasProfile j = get-init (user_config_key j)

  -- The lines run from the empty map to a map of the profile.
  pub record Replayed (row : Ifrow) (lines : List Line) (w : Profile) : Type 0 where
    pub config : Smap
    pub ran : replay row lines [] ≡ some config
    pub values : HasProfile config w

  replay-append :
      (row : Ifrow) (xs ys : List Line) (config : Smap)
      → replay row (xs ++ ys) config ≡ (replay row xs config >>= replay row ys)
  unfolding replay
  replay-append row [] ys config = refl
  replay-append row (line ∷ xs) ys config =
      after_lem (run_line row line config) (replay-append row xs ys)
    where
      after_lem :
          (first : Option Smap)
          → ((config : Smap)
              → replay row (xs ++ ys) config ≡ (replay row xs config >>= replay row ys))
          → (first >>= replay row (xs ++ ys)) ≡ ((first >>= replay row xs) >>= replay row ys)
      after_lem none ih = refl
      after_lem (some m) ih = ih m

  bind_some : (first : Option Smap) → (first >>= (λ config. some config)) ≡ first
  bind_some none = refl
  bind_some (some config) = refl

  replay-one :
      (row : Ifrow) (line : Line) (config : Smap)
      → replay row (line ∷ []) config ≡ run_line row line config
  unfolding replay
  replay-one row line config = bind_some (run_line row line config)

  module _ (row : Ifrow) where
    -- What a line does to every map of the profile.
    abbrev pub Does : Line → Profile → Profile → Type 0
    Does line w w' =
        (config : Smap)
        → HasProfile config w
        → (config' : Smap) × (run_line row line config ≡ some config') × HasProfile config' w'

    pub emit-Replayed :
        (line : Line) (lines : List Line) (w w' : Profile)
        → Does line w w'
        → Replayed row lines w
        → Replayed row (lines ++ line ∷ []) w'
    emit-Replayed line lines w w' does r =
        let (config', runs, values) = does r.config r.values in
        record {
          config = config';
          ran =
              replay-append row lines (line ∷ []) []
              ∙ ap (λ o. o >>= replay row (line ∷ [])) r.ran
              ∙ replay-one row line r.config
              ∙ runs;
          values = values;
        }

    -- A line of another column.
    pub idle_lem :
        (line : Line) (w : Profile)
        → ((config : Smap) → run_line row line config ≡ some config)
        → Does line w w
    idle_lem line w idle config h = (config, idle config, h)

    pub header-Replayed :
        (name : CString) (out : Out) (w : Profile)
        → Replayed row out.lines w
        → Replayed row (print_header name out).lines w
    unfolding print_header run_line
    header-Replayed name out w r = elim (Bool-cases out.printed) [
      | inl e ↦ rw e r
      | inr e ↦ rw e (
          emit-Replayed (interface_name name) out.lines w w
            (idle_lem (interface_name name) w (λ config. refl)) r)
    ]

    pub say-Replayed :
        (name : CString) (line : Line) (out : Out) (w w' : Profile)
        → Does line w w'
        → Replayed row out.lines w
        → Replayed row (say name line out).lines w'
    say-Replayed name line out w w' does r =
        emit-Replayed line (print_header name out).lines w w' does (header-Replayed name out w r)

  module _ (inj : (a b : UserConfigKey) → user_config_key a ≡ user_config_key b → a ≡ b) where
    strcmp-key :
        (a b : UserConfigKey) → strcmp_is_zero (user_config_key a) (user_config_key b) ≡ key_eq a b
    strcmp-key = strcmp-name UserConfigKey-discrete user_config_key inj

    pub replace-HasProfile :
        (config : Smap) (w : Profile) (k : UserConfigKey) (v : CString)
        → HasProfile config w
        → HasProfile (smap_replace config (user_config_key k) v) (put w k (some v))
    replace-HasProfile config w k v h j =
        rw (get-replace config (user_config_key k) (user_config_key j) v, strcmp-key k j, h j) refl

    pub flowcontrol-HasProfile :
        (pause_inj : (a b : UserPause) → user_pause_name a ≡ user_pause_name b → a ≡ b)
        → (direction state : CString) (config : Smap) (w : Profile) (p q : UserPause)
        → w UserConfigKey.pause ≡ stored p
        → new_pause direction state (stored p) ≡ q
        → HasProfile config w
        → HasProfile
            (edit_flowcontrol direction state config)
            (put w UserConfigKey.pause (stored q))
    flowcontrol-HasProfile pause_inj direction state config w p q before chosen h j =
        elim (UserConfigKey-discrete UserConfigKey.pause j)
          as (λ d.
            smap_get (edit_flowcontrol direction state config) (user_config_key j)
            ≡ (if is_yes d then stored q else w j)) [
              | yes e ↦
                  subst
                    (λ k.
                      smap_get (edit_flowcontrol direction state config) (user_config_key k)
                      ≡ stored q)
                    e
                    (get-edit_flowcontrol pause_inj direction state config q
                      (ap (new_pause direction state) (h UserConfigKey.pause ∙ before) ∙ chosen))
              | no n ↦
                  edit_flowcontrol-other direction state config (user_config_key j)
                    (strcmp-key UserConfigKey.pause j ∙ key_ne UserConfigKey.pause j n)
                  ∙ h j
            ]
      where
        key_ne : (a b : UserConfigKey) → ¬ (a ≡ b) → key_eq a b ≡ false
        key_ne a b n = elim (UserConfigKey-discrete a b) as (λ d. is_yes d ≡ false) [
          | yes e ↦ absurd (n e)
          | no m ↦ refl
        ]

  -- A key that has the value already.
  pub put_same :
      (config : Smap) (w : Profile) (k : UserConfigKey) (v : Option CString)
      → w k ≡ v
      → HasProfile config w
      → HasProfile config (put w k v)
  put_same config w k v e h j =
      elim (UserConfigKey-discrete k j)
        as (λ d. smap_get config (user_config_key j) ≡ (if is_yes d then v else w j)) [
          | yes p ↦ h j ∙ ap w (sym p) ∙ e
          | no n ↦ h j
        ]

  pub Replayed-put_same :
      (row : Ifrow) (lines : List Line) (w : Profile) (k : UserConfigKey) (v : Option CString)
      → w k ≡ v
      → Replayed row lines w
      → Replayed row lines (put w k v)
  Replayed-put_same row lines w k v e r = record {
    config = r.config;
    ran = r.ran;
    values = put_same r.config w k v e r.values;
  }
