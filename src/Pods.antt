-- ===== src/Pods.antt =====
-- src/pod.c and src/spec_handlers/annotations.c: the annotations that make a container a pod sandbox or
-- a member of one, and creating a container in a pod.
pub mod Annotations
pub mod Create
pub mod Created
pub mod Sandbox
