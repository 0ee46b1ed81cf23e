-- ===== src/Config/File/Sections.antt =====
-- The sections of a `ConfigFile` and their index.
use lorelei.Base.{
  ℕ, zero, suc, ◌<◌, ◌≡◌, refl, sym, ap, ◌∙◌, List, [], ◌∷◌, ◌++◌, map, some, Bytes, length,
  get_elem?, get_elem?-append_left, get_elem?-append_length, set, length-set, length-append, ok,
  Option-cases, inl, inr, arith, All, get_elem?-lt_length,
}
use mathlib.Core.Option.{some-injective}
use lorelei.Config.File.{
  ConfigFile, cleared, global_section_name, get, get_or_create_section, store,
}
use lorelei.Config.Section.Laws as SectionLaws
use lorelei.Config.Section.Laws.{Added, add_key_value-Added, new_section-IsValid}
use lorelei.Config.Section.{Section, new_section}
use lorelei.Index.{lookup, at-get_elem?, Indexed, Indexed-nil, Indexed-concat}

abbrev pub names : List Section → List Bytes
names secs = map (λ s. s.name) secs

-- The index holds the position of every section's name, the current section is there, every
-- section is valid, and the global section is the first.
pub record IsValid (cf : ConfigFile) : Type 0 where
  pub indexed : Indexed (names cf.sections) cf.section_index
  pub current_in : cf.current < length cf.sections
  pub each : All SectionLaws.IsValid cf.sections
  pub global_first : get_elem? (names cf.sections) 0 ≡ some global_section_name

pub cleared-IsValid : IsValid cleared
unfolding lookup
cleared-IsValid = record {
  indexed = Indexed-concat [] [] global_section_name Indexed-nil refl;
  current_in = omega arith;
  each = (new_section-IsValid global_section_name, tt);
  global_first = refl;
}

length-names : (secs : List Section) → length (names secs) ≡ length secs
length-names [] = refl
length-names (s ∷ secs) = ap (λ n. suc n) (length-names secs)

names-concat :
    (secs : List Section) (s : Section) → names (secs ++ s ∷ []) ≡ names secs ++ s.name ∷ []
names-concat [] s = refl
names-concat (x ∷ secs) s = ap (◌∷◌ x.name) (names-concat secs s)

All-concat :
    (secs : List Section) (s : Section)
    → All SectionLaws.IsValid secs
    → SectionLaws.IsValid s
    → All SectionLaws.IsValid (secs ++ s ∷ [])
All-concat [] s h k = (k, tt)
All-concat (x ∷ secs) s h k = (h.0, All-concat secs s h.1 k)

-- The section at a position that is in range.
section_at :
    (secs : List Section) (i : ℕ)
    → i < length secs
    → All SectionLaws.IsValid secs
    → (s : Section) × (get_elem? secs i ≡ some s) × SectionLaws.IsValid s
section_at [] i lt h = absurd (omega arith)
section_at (x ∷ secs) zero lt h = (x, refl, h.0)
section_at (x ∷ secs) (suc i) lt h = section_at secs i (omega arith) h.1

names-set :
    (secs : List Section) (i : ℕ) (s t : Section)
    → get_elem? secs i ≡ some s
    → t.name ≡ s.name
    → names (set secs i t) ≡ names secs
names-set [] i s t h e = refl
names-set (x ∷ secs) zero s t h e =
    ap (λ n. n ∷ names secs) (e ∙ ap (λ (y : Section). y.name) (sym (some-injective _ _ h)))
names-set (x ∷ secs) (suc i) s t h e = ap (◌∷◌ x.name) (names-set secs i s t h e)

All-set :
    (secs : List Section) (i : ℕ) (t : Section)
    → All SectionLaws.IsValid secs
    → SectionLaws.IsValid t
    → All SectionLaws.IsValid (set secs i t)
All-set [] i t h k = tt
All-set (x ∷ secs) zero t h k = (k, h.1)
All-set (x ∷ secs) (suc i) t h k = (h.0, All-set secs i t h.1 k)

-- `getOrCreateSection` gives the position of a section with the name; the other sections keep
-- their positions.
pub record Created (cf : ConfigFile) (name : Bytes) (r : ℕ × ConfigFile) : Type 0 where
  pub named : get_elem? (names r.1.sections) r.0 ≡ some name
  pub kept :
      (i : ℕ) (s : Section) → get_elem? cf.sections i ≡ some s → get_elem? r.1.sections i ≡ some s
  pub current_same : r.1.current ≡ cf.current
  pub dirs_same : r.1.base_dirs ≡ cf.base_dirs
  pub valid : IsValid r.1

-- From a valid state, getOrCreateSection gives the position of a section with the name; the
-- state stays valid, the other sections keep their positions, and the current section and the
-- base directories are the same.
pub get_or_create_section-Created :
    (cf : ConfigFile) (name : Bytes) → IsValid cf → Created cf name (get_or_create_section cf name)
unfolding get_or_create_section
get_or_create_section-Created cf name v = elim (Option-cases (lookup name cf.section_index)) [
  | inr (i, e) ↦
      rw (e, get_or_create_section)
        (record {
          named = (v.indexed name i).0 e;
          kept = λ j s h. h;
          current_same = refl;
          dirs_same = refl;
          valid = v;
        })
  | inl e ↦
      let secs = cf.sections in
      let listed = names-concat secs (new_section name) in
      rw (e, get_or_create_section)
        (record {
          named = rw (listed, ← length-names secs) (get_elem?-append_length (names secs) name []);
          kept = λ j s h. get_elem?-append_left secs (new_section name ∷ []) j h;
          current_same = refl;
          dirs_same = refl;
          valid = record {
            indexed =
                rw (listed, ← length-names secs)
                  (Indexed-concat (names secs) cf.section_index name v.indexed e);
            current_in = omega (arith, length-append secs (new_section name ∷ []));
            each = All-concat secs (new_section name) v.each (new_section-IsValid name);
            global_first =
                rw listed (get_elem?-append_left (names secs) (name ∷ []) 0 v.global_first);
          };
        })
]

-- The section becomes the current one.
pub Created-current :
    (cf : ConfigFile) (name : Bytes) (r : ℕ × ConfigFile)
    → Created cf name r
    → IsValid (record (r.1) { current = r.0 })
Created-current cf name r c = record {
  indexed = c.valid.indexed;
  current_in =
      omega
        (arith, get_elem?-lt_length (names r.1.sections) r.0 c.named, length-names r.1.sections);
  each = c.valid.each;
  global_first = c.valid.global_first;
}

-- `store` writes one key of the current section.
pub record Stored (cf : ConfigFile) (key value : Bytes) (cf' : ConfigFile) : Type 0 where
  pub old : Section
  pub new : Section
  pub was : get_elem? cf.sections cf.current ≡ some old
  pub added : Added old key value new
  pub sections_are : cf'.sections ≡ set cf.sections cf.current new
  pub dirs_same : cf'.base_dirs ≡ cf.base_dirs
  pub valid : IsValid cf'

-- From a valid state, a pair is stored: the current section gets the key with the value, every
-- other section stays as it is, and the state is valid.
pub store-Stored :
    (cf : ConfigFile) (key value : Bytes)
    → IsValid cf
    → (cf' : ConfigFile) × (store cf key value ≡ ok cf') × Stored cf key value cf'
unfolding store
store-Stored cf key value v =
    let (s, at_i, vs) = section_at cf.sections cf.current v.current_in v.each in
    let (t, run, added) = add_key_value-Added s key value vs in
    let same = names-set cf.sections cf.current s t at_i added.same_name in
    (
      record cf { sections = set cf.sections cf.current t },
      rw (at-get_elem? cf.sections cf.current at_i, run),
      record {
        old = s;
        new = t;
        was = at_i;
        added = added;
        sections_are = refl;
        dirs_same = refl;
        valid = record {
          indexed = rw same v.indexed;
          current_in = rw (length-set cf.sections cf.current t) v.current_in;
          each = All-set cf.sections cf.current t v.each added.valid;
          global_first = rw same v.global_first;
        };
      },
    )

get_elem?-names :
    (secs : List Section) (i : ℕ) (s : Section)
    → get_elem? secs i ≡ some s
    → get_elem? (names secs) i ≡ some s.name
get_elem?-names [] i s h = cc
get_elem?-names (x ∷ secs) zero s h = ap (λ (y : Section). some y.name) (some-injective _ _ h)
get_elem?-names (x ∷ secs) (suc i) s h = get_elem?-names secs i s h

-- In a valid state, get of the name of a section gives that section.
pub get-names :
    (cf : ConfigFile) (name : Bytes) (i : ℕ) (s : Section)
    → IsValid cf
    → get_elem? cf.sections i ≡ some s
    → s.name ≡ name
    → get cf name ≡ ok (some s)
unfolding get
get-names cf name i s v h e =
    let named : get_elem? (names cf.sections) i ≡ some name =
      get_elem?-names cf.sections i s h ∙ ap some e in
    rw ((v.indexed name i).1 named, get, at-get_elem? cf.sections i h)
