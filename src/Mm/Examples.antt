-- ===== src/Mm/Examples.antt =====
-- The theorems about pages at small states: the anonymous object 0, the shadow object 1 over it, the
-- shadow object 2 over 1, and the object 3 of a file.
use weenix_kernel.Base.{
  ℕ, ◌≡◌, refl, subst, Bool, true, false, none, some, [], ◌∷◌, ◌==◌, ==_iff, ◌⊎◌, if◌then◌else◌,
  arith,
}
use weenix_kernel.Base.Outcome.{Outcome, ok, Ends}
use weenix_kernel.Mm.Objects.{anon, shadow, file, Object, Frame, Pages, set_object, hash_page, Inv}
use weenix_kernel.Mm.Frames.{get_resident, listed, add_resident, set_pincount, to_pinned}
use weenix_kernel.Mm.Frames.Pin.{pin-Inv, quiet-Inv, pin-first}
use weenix_kernel.Mm.Frames.Lookup.{Found, get_resident-Found}
use weenix_kernel.Mm.Frames.Cache.{cached-Inv}
use weenix_kernel.Mm.Pager.{
  Got, failure, Filled, filled, unfilled, PagerEnv, anon_fillpage, get, put, set_busy, drop_ref,
}
use weenix_kernel.Mm.Pager.Anon.{Served, get-Served}
use weenix_kernel.Mm.Pager.Put.{released, put-released}
use weenix_kernel.Mm.Shadow.{shadow_lookuppage, shadow_fillpage}
use weenix_kernel.Mm.Shadow.Read.{Read, shadow_lookuppage-Read}
use weenix_kernel.Mm.Shadow.Write.{Written, get-Written}
use weenix_kernel.Mm.Shadow.Copy.{Copied, shadow_fillpage-Copied}
use weenix_kernel.Mm.Writeback.{set_dirty, swept, running, clean_all, pageout, scan}
use weenix_kernel.Mm.Writeback.Dirty.{dirty_pages}
use weenix_kernel.Mm.Writeback.Sweep.{cleaned, clean_all-Cleaned, clean_all-running}
use weenix_kernel.Mm.Writeback.Pageout.{OfFiles, UsedFiles, pageout-swept}

abbrev bucket : ℕ → ℕ → ℕ
bucket = hash_page 13 (λ o. o)

abbrev env : PagerEnv
env = record {
  bucket = bucket;
  slab = λ s. some 9;
  file_ref = λ o s. ok s;
  file_put = λ o s. ok (drop_ref o s);
  file_lookup = λ o n w s. ok (failure, s);
}

abbrev free_frame : Frame
free_frame = record {
  obj = none;
  pagenum = 0;
  dirty = false;
  busy = false;
  pincount = 0;
  content = 7;
}

abbrev bottom_object : Object
bottom_object = record {
  kind = anon;
  refcount = 1;
  nrespages = 0;
  respages = [];
  shadowed = none;
  bottom = none;
}

abbrev shadow_over : ℕ → Object
shadow_over o = record {
  kind = shadow;
  refcount = 1;
  nrespages = 0;
  respages = [];
  shadowed = some o;
  bottom = some 0;
}

abbrev objects : ℕ → Object
objects o =
    if o == 1
    then shadow_over 0
    else (if o == 2
        then shadow_over 1
        else (if o == 3 then record bottom_object { kind = file } else bottom_object))

abbrev no_pages : Pages
no_pages = record {
  frames = λ f. free_frame;
  objects = objects;
  alloc = [];
  pinned = [];
  nallocated = 0;
  npinned = 0;
  hash = λ b. [];
}

no_pages-Inv : Inv bucket no_pages
no_pages-Inv = record {
  on_alloc = λ f. refl;
  on_pinned = λ f. refl;
  hashed = λ b f. refl;
  resident = λ o f. ground (arith, ==_iff o 1);
  alloc_once = tt;
  pinned_once = tt;
  hash_once = λ b. tt;
  resident_once = λ o. ground arith;
  nallocated = refl;
  npinned = refl;
  nrespages = λ o. ground arith;
  unique = λ o f g a b c. cc;
}

-- The frame `f` holds the page 3 of the object `o` as well.
abbrev with_page : ℕ → ℕ → Pages → Pages
with_page f o s =
    add_resident f o (set_object o (record (s.objects o) { refcount = 2 }) (listed bucket f o 3 s))

-- The frame 5 is the page 3 of the object 0.
abbrev one_page : Pages
one_page = with_page 5 0 no_pages

one_page-Inv : Inv bucket one_page
one_page-Inv = cached-Inv bucket 5 0 3 2 no_pages no_pages-Inv refl (λ g. refl)

get_resident-Found_example :
    Found bucket 0 3 one_page (get_resident bucket 0 3 one_page)
    × Inv bucket (get_resident bucket 0 3 one_page).1
get_resident-Found_example = get_resident-Found bucket 0 3 one_page one_page-Inv

get-Served_example :
    Ends
      (λ r. Served env 9 0 4 one_page r × Inv bucket r.1)
      (get env 1 (λ p f. anon_fillpage f) 0 4 one_page)
get-Served_example = get-Served env 9 0 4 1 one_page one_page-Inv refl refl refl refl

-- And the frame 7 is the page 3 of the object 1.
abbrev two_pages : Pages
two_pages = with_page 7 1 one_page

two_pages-Inv : Inv bucket two_pages
two_pages-Inv =
    cached-Inv bucket 7 1 3 2 one_page one_page-Inv refl (λ g. ground (arith, ==_iff 5 g))

abbrev no_lookup : ℕ → ℕ → Bool → Pages → Outcome (Got × Pages)
no_lookup o n w s = ok (failure, s)

shadow_lookuppage-Read_example :
    Read env no_lookup
      (2 ∷ 1 ∷ [])
      0
      3
      two_pages
      (shadow_lookuppage env 3 no_lookup 2 3 false two_pages)
shadow_lookuppage-Read_example =
    shadow_lookuppage-Read env 3 no_lookup (2 ∷ 1 ∷ []) 2 0 3 two_pages two_pages-Inv
      (refl, (1, refl, (refl, (0, refl, (refl, refl))))) (omega arith)
      (λ f shown. ground (arith, ==_iff 5 f, ==_iff 7 f))

-- The frame 6, which is the page 3 of the object 2, is being filled.
abbrev filling : Pages
filling = set_busy 6 true (with_page 6 2 two_pages)

filling-Inv : Inv bucket filling
filling-Inv =
    quiet-Inv bucket 6 _ (with_page 6 2 two_pages)
      (cached-Inv bucket 6 2 3 2 two_pages two_pages-Inv refl
        (λ g. ground (arith, ==_iff 5 g, ==_iff 7 g)))
      refl refl refl

shadow_fillpage-Copied_example :
    Copied env no_lookup (1 ∷ []) 0 6 filling (shadow_fillpage env 2 no_lookup 2 6 filling)
shadow_fillpage-Copied_example =
    shadow_fillpage-Copied env 2 6 2 1 0 no_lookup (1 ∷ []) filling filling-Inv refl refl refl refl
      refl (refl, (0, refl, (refl, refl))) (omega arith)

abbrev pinned_page : Pages
pinned_page = set_pincount 5 1 (to_pinned 5 one_page)

pinned_page-Inv : Inv bucket pinned_page
pinned_page-Inv =
    subst (Ends (Inv bucket)) (pin-first bucket 5 one_page refl refl)
      (pin-Inv bucket 5 one_page one_page-Inv refl)

put-released_example :
    Ends
      (λ t. Inv bucket t × ((u : ℕ) → t.frames u ≡ released 0 (pinned_page.frames u)))
      (put env 2 0 pinned_page)
put-released_example =
    put-released env 0 0 pinned_page pinned_page-Inv refl refl (omega arith)
      (λ u h. ground (arith, ==_iff 5 u, h))

-- The page is dirty.
abbrev dirty_page : Pages
dirty_page = set_dirty 5 true one_page

dirty_page-Inv : Inv bucket dirty_page
dirty_page-Inv = quiet-Inv bucket 5 _ one_page one_page-Inv refl refl refl

-- The frame 5 is the page 3 of the file's object 3, and dirty.
abbrev file_page : Pages
file_page = set_dirty 5 true (with_page 5 3 no_pages)

file_page-Inv : Inv bucket file_page
file_page-Inv =
    quiet-Inv bucket 5 _ (with_page 5 3 no_pages)
      (cached-Inv bucket 5 3 3 2 no_pages no_pages-Inv refl (λ g. refl)) refl refl refl

file_page-OfFiles : OfFiles file_page
file_page-OfFiles f o h at = ground (arith, ==_iff 5 f, ==_iff 3 o, h, at)

file_page-UsedFiles : UsedFiles file_page
file_page-UsedFiles o h = (ground (arith, ==_iff 3 o, h), ground (arith, ==_iff 3 o, h))

abbrev writes : ℕ → ℕ → Pages → Outcome (Filled × Pages)
writes o f s = ok (filled, s)

abbrev fails : ℕ → ℕ → Pages → Outcome (Filled × Pages)
fails o f s = ok (unfilled, s)

clean_all-Cleaned_example :
    Ends
      (λ r.
        (r.0 ≡ swept)
        × Inv bucket r.1
        × (r.1.alloc ≡ 5 ∷ [])
        × ((u : ℕ) → r.1.frames u ≡ cleaned (5 ∷ []) file_page.frames u))
      (clean_all writes 2 file_page)
unfolding dirty_pages
clean_all-Cleaned_example =
    clean_all-Cleaned writes bucket 2 file_page (λ o f t h. refl)
      (λ f o h d at. file_page-OfFiles f o h at) file_page-Inv (λ f. ground (arith, ==_iff 5 f))
      (omega arith)

clean_all-running_example : clean_all fails 100 dirty_page ≡ ok (running, dirty_page)
unfolding scan
clean_all-running_example =
    clean_all-running fails bucket 100 5 dirty_page (λ o t. refl) dirty_page-Inv
      (λ f. ground (arith, ==_iff 5 f)) refl

pageout-swept_example :
    Ends
      (λ r. (r.0 ≡ swept) × Inv bucket r.1 × ((false ≡ true) ⊎ (r.1.alloc ≡ [])))
      (pageout env 1 writes (λ s. false) 3 file_page)
unfolding dirty_pages
pageout-swept_example =
    pageout-swept env 0 writes (λ s. false) 3 file_page (λ o t k h. refl) (λ o f t h. refl)
      file_page-OfFiles file_page-UsedFiles file_page-Inv (λ f. ground (arith, ==_iff 5 f))
      (omega arith)

get-Written_example :
    Written env 9 2 3 (1 ∷ []) two_pages (get env 2 (shadow_fillpage env 2 no_lookup) 2 3 two_pages)
get-Written_example =
    get-Written env 2 no_lookup 9 2 3 0 (1 ∷ []) two_pages two_pages-Inv
      (λ g. ground (arith, ==_iff 5 g, ==_iff 7 g)) refl refl refl refl (refl, tt) 1 7 refl refl
      (refl, (0, refl, (refl, refl))) (omega arith) ([], 1, [], refl, tt, refl)
