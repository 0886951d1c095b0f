-- ===== src/Generated.antt =====
-- The generated client of the custom resource: `CustomResource/src/pkg/client/`.
pub mod Factory
pub mod Requests
pub mod Typed
pub mod Fake
pub mod Lister
pub mod Clientset
pub mod Informer
pub mod Resource
