-- ===== src/Hello/Install/Ledger.antt =====
-- What the kernel keeps for hello-driver/hello.c while it loads, fails to load, and is removed.
use c_modules.Base.{
  ◌++◌, ℕ, ◌+◌, ◌-◌, ◌≡◌, ◌≢◌, ◌⊎◌, inl, inr, refl, Bool, true, false, not, ◌&&◌, Option, none,
  some, List, [], ◌∷◌, ◌==◌, if◌then◌else◌, Bool-cases, ne→==,
}
use c_modules.Hello.Install.{
  Call, kmalloc, kfree, alloc_chrdev_region, unregister_chrdev_region, cdev_init, cdev_add,
  cdev_del, class_create, class_destroy, device_create, device_destroy, mutex_init, Answers,
  installed, failed, hello_init, hello_exit, each_minor, clean_up, null, error_pointer,
}

-- What the module holds.
pub record Held : Type 0 where
  pub memory : Bool
  pub region : Bool
  pub cdev : Bool
  pub class : Bool
  pub devices : ℕ

abbrev pub nothing : Held
nothing = record { memory = false; region = false; cdev = false; class = false; devices = 0 }

abbrev pub everything : Held
everything = record { memory = true; region = true; cdev = true; class = true; devices = 2 }

-- The documented use of one call: `none` is a release of what is not held, or before
-- what stands on it. class_destroy takes an error pointer and does nothing.
unfoldable pub book : Call → Held → Option Held
book (kmalloc true) h = some (record h { memory = true })
book (kmalloc false) h = some h
book (alloc_chrdev_region false) h = some h
book (cdev_add false) h = if h.memory && h.region then some h else none
book (class_create false) h = some h
book kfree h = if h.memory && not h.cdev then some (record h { memory = false }) else none
book (alloc_chrdev_region true) h = some (record h { region = true })
book unregister_chrdev_region h =
    if h.region && not h.cdev then some (record h { region = false }) else none
book cdev_init h = if h.memory then some h else none
book (cdev_add true) h = if h.memory && h.region then some (record h { cdev = true }) else none
book cdev_del h = if h.cdev then some (record h { cdev = false }) else none
book (class_create true) h = some (record h { class = true })
book (class_destroy true) h =
    if h.class && (h.devices == 0) then some (record h { class = false }) else none
book (class_destroy false) h = some h
book (device_create minor) h = if h.class then some (record h { devices = h.devices + 1 }) else none
book (device_destroy minor) h =
    if h.devices == 0 then none else some (record h { devices = h.devices - 1 })
book mutex_init h = if h.memory then some h else none

unfoldable pub settle : List Call → Held → Option Held
unfolding book
settle [] h = some h
settle (c ∷ cs) h = elim (book c h) [ none ↦ none | some h' ↦ settle cs h' ]

-- Where kmalloc and the region are given, loading either installs the module, which then holds
-- everything, and hello_exit gives all of it back; or it fails, and what it took is given back.
pub hello_init-settle :
    (k : Answers)
    → k.allocated ≡ true
    → k.alloc_ret ≡ 0
    → ((calls : List Call) × (hello_init k ≡ installed calls)
        × (settle calls nothing ≡ some everything)
        × (settle hello_exit everything ≡ some nothing))
      ⊎ ((calls : List Call) × (hello_init k ≡ failed calls)
          × (settle calls nothing ≡ some nothing))
unfolding hello_init hello_exit settle
hello_init-settle k given region =
    let start : List Call → List Call =
      λ rest. kmalloc true ∷ alloc_chrdev_region true ∷ cdev_init ∷ rest in
    elim (Bool-cases (k.cdev_err == 0)) [
      | inl added ↦ elim (Bool-cases k.class_made) [
        | inl made ↦ inl (
          start (
              cdev_add true
              ∷ class_create true
              ∷ (each_minor device_create 2 0 ++ (mutex_init ∷ []))),
          rw (given, region, added, made) refl,
          refl,
          refl,
        )
        | inr unmade ↦ inr (
          start
              (cdev_add true ∷ class_create false ∷ clean_up error_pointer k.cdev_err k.alloc_ret),
          rw (given, region, added, unmade) refl,
          rw (region, added) refl,
        )
      ]
      | inr refused ↦ inr (
        start (cdev_add false ∷ clean_up null k.cdev_err k.alloc_ret),
        rw (given, region, refused) refl,
        rw (region, refused) refl,
      )
    ]

-- Where alloc_chrdev_region fails, the cleaning up removes a cdev that was never added.
pub hello_init-misuse :
    (k : Answers)
    → k.allocated ≡ true
    → k.alloc_ret ≢ 0
    → (calls : List Call) × (hello_init k ≡ failed calls) × (settle calls nothing ≡ none)
unfolding hello_init settle
hello_init-misuse k given region =
    let no_region = ne→== k.alloc_ret 0 region in
    (
      kmalloc true ∷ alloc_chrdev_region false ∷ clean_up null 0 k.alloc_ret,
      rw (given, no_region) refl,
      refl,
    )
